-- ===== src/Guardrail/Tests.antt =====
-- Publications on concrete policies, and the properties at concrete inputs.
use lite_aig.Base.{◌≡◌, refl, List, [], ◌∷◌, String, true, false, none, some}
use lite_aig.Base.Assoc.{lookup, insert}
use lite_aig.Base.Word.{add64}
use lite_aig.Guardrail.{
  Policy, Env, new_registry, published, failed, conflict, prepare, commit, check, persist, conclude,
  fast_publish, active, active_with,
}
use lite_aig.Guardrail.Publication.{
  IsOutcome, publications-conflict, fast_publish-IsOutcome, fast_publish_unloaded,
}

-- Rules are a text; the store keeps the policies that it is given, the last one first.
abbrev env : Env (List (Policy String)) String String
env = record {
  compile = λ version rules. none;
  has_store = true;
  create = λ tenant_id p change actor s. (p ∷ s, none);
  get_active = λ tenant_id s. elim s [ [] ↦ none | p ∷ rest ↦ some p ];
  has_audit = false;
  record_publish = λ tenant_id p change actor s. (s, some "no audit");
}

abbrev policy : Policy String
policy = record {
  id = "p";
  tenant_id = "t";
  version = 0;
  security_epoch = 0;
  rules = "block";
  change_type = "tighten";
  published_at = 0;
}

abbrev seventh : Policy String
seventh = record policy { version = 7; security_epoch = 7 }

program : Unit {0}
unfolding prepare commit check persist conclude fast_publish active active_with lookup insert add64
program = tt

-- A registry that has loaded version 7 publishes version 8.
publish_after_load :
    (fast_publish env 5 "t" policy "tighten" "u"
      (active env "t" (new_registry String) (seventh ∷ [])).0
      (seventh ∷ [])).2
    ≡ published (record policy { version = 8; security_epoch = 8; published_at = 5 })
unfolding program
publish_after_load = refl

publications-conflict_example :
    ((commit {R = String} {E = String} "t" 0
        (record policy { version = 1; security_epoch = 1; published_at = 5 })
        (new_registry String)).1
      ≡ published (record policy { version = 1; security_epoch = 1; published_at = 5 }))
    × (commit {R = String} {E = String} "t" 0
          (record seventh { version = 1; security_epoch = 1; published_at = 6 })
          (commit {R = String} {E = String} "t" 0
            (record policy { version = 1; security_epoch = 1; published_at = 5 })
            (new_registry String)).0
        ≡ (
          (commit {R = String} {E = String} "t" 0
              (record policy { version = 1; security_epoch = 1; published_at = 5 })
              (new_registry String)).0,
          failed conflict,
        ))
unfolding program
publications-conflict_example = publications-conflict "t" (new_registry String) 5 6 policy seventh

fast_publish-IsOutcome_example :
    IsOutcome "t"
      (new_registry String)
      (fast_publish env 5 "t" policy "tighten" "u" (new_registry String) [])
fast_publish-IsOutcome_example =
    fast_publish-IsOutcome env 5 "t" policy "tighten" "u" (new_registry String) []

abbrev unloaded_publication : Policy String
unloaded_publication = record policy { version = 1; security_epoch = 1; published_at = 5 }

fast_publish_unloaded_example :
    (unloaded_publication.version ≡ 1) × (unloaded_publication.security_epoch ≡ 1)
unfolding program
fast_publish_unloaded_example =
    fast_publish_unloaded env 5 "t" policy unloaded_publication "tighten" "u" (new_registry String)
      (seventh ∷ []) refl refl
