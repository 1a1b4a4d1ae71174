-- ===== src/Merging/Conversion.antt =====
-- `Feature.FromV1beta1` of internal/growthbook/feature.go.
use k8sgrowthbook_controller.Prelude.{
  Bool, true, false, not, ◌&&◌, ◌||◌, ◌≡◌, refl, sym, ap, arith, inl, inr,
}
use k8sgrowthbook_controller.Prelude.{
  List, [], ◌∷◌, Option, none, some, elems, append, elems-append,
}
use k8sgrowthbook_controller.Prelude.{GoString, ◌==◌, text_eq, if◌then◌else◌}
use k8sgrowthbook_controller.Prelude.Dict.{
  Dict, lookup, insert, NodupKeys, lookup-insert, lookup-nil,
}
use k8sgrowthbook_controller.Prelude.Dict.{insert-NodupKeys}
use k8sgrowthbook_controller.Prelude.Options.{is_some, Option-cases, >>=-eq-some}
use mathlib.Core.Path.{subst}
use mathlib.Core.Option.{some-injective}
use k8sgrowthbook_controller.Api
use k8sgrowthbook_controller.Documents.Feature.{Feature, FeatureRule, EnvironmentSetting}
use k8sgrowthbook_controller.Growthbook.Feature.{ParseFloat, convert_rule, convert_rules}
use k8sgrowthbook_controller.Growthbook.Feature.{convert_environment, convert_environments, entries}
use k8sgrowthbook_controller.Growthbook.Feature.{from_v1beta1}
use k8sgrowthbook_controller.Merging.Rules.{Unidentified}
use k8sgrowthbook_controller.Merging.Environments.{IsSpecified, AllSpecified}

-- A rule with a bucket version and no minimal one.
unfoldable pub dangling : Api.Feature.FeatureRule → Bool
dangling r = is_some r.bucket_version && not (is_some r.min_bucket_version)

unfoldable pub any_dangling : List Api.Feature.FeatureRule → Bool
unfolding dangling
any_dangling [] = false
any_dangling (r ∷ rs) = dangling r || any_dangling rs

unfoldable pub has_dangling : List Api.Feature.Environment → Bool
unfolding any_dangling
has_dangling [] = false
has_dangling (env ∷ envs) = any_dangling (elems env.rules) || has_dangling envs

-- What the loop over the environments keeps of the settings that it builds.
pub record IsBuilt (m : Dict EnvironmentSetting) : Type 0 where
  pub nodup : NodupKeys m
  pub specified : AllSpecified m

found_in_either :
    (b : Bool) (s t : EnvironmentSetting) (o : Option EnvironmentSetting)
    → IsSpecified s
    → (o ≡ some t → IsSpecified t)
    → (if b then some s else o) ≡ some t
    → IsSpecified t
found_in_either true s t o hs ho e = subst IsSpecified (some-injective _ _ e) hs
found_in_either false s t o hs ho e = ho e

insert-IsBuilt :
    (k : GoString) (s : EnvironmentSetting) (m : Dict EnvironmentSetting)
    → IsSpecified s
    → IsBuilt m
    → IsBuilt (insert k s m)
insert-IsBuilt k s m hs h = record {
  nodup = insert-NodupKeys k s m h.nodup;
  specified = λ j t e.
      found_in_either (j == k) s t (lookup j m) hs (h.specified j t) (rw lookup-insert at e);
}

empty-IsBuilt : IsBuilt []
empty-IsBuilt = record {
  nodup = tt;
  specified = λ k s e. cc (lookup-nil {V = EnvironmentSetting} k);
}

module _ (parse_float : ParseFloat) where
  is_some-convert_rule :
      (r : Api.Feature.FeatureRule) → is_some (convert_rule parse_float r) ≡ not (dangling r)
  unfolding convert_rule dangling
  is_some-convert_rule r = ground arith

  is_some-convert_rules :
      (rs : List Api.Feature.FeatureRule)
      → is_some (convert_rules parse_float rs) ≡ not (any_dangling rs)
  unfolding convert_rules any_dangling
  is_some-convert_rules [] = refl
  is_some-convert_rules (r ∷ rs) = ground (arith, is_some-convert_rule r, is_some-convert_rules rs)

  is_some-convert_environment :
      (env : Api.Feature.Environment)
      → is_some (convert_environment parse_float env) ≡ not (any_dangling (elems env.rules))
  unfolding convert_environment
  is_some-convert_environment env = ground (arith, is_some-convert_rules (elems env.rules))

  is_some-convert_environments :
      (envs : List Api.Feature.Environment) (settings : Dict EnvironmentSetting)
      → is_some (convert_environments parse_float envs settings) ≡ not (has_dangling envs)
  unfolding convert_environments has_dangling
  is_some-convert_environments [] settings = refl
  is_some-convert_environments (env ∷ envs) settings =
      elim (Option-cases (convert_environment parse_float env)) [
        | inl e ↦ ground (arith, is_some-convert_environment env)
        | inr (s, e) ↦ ground (
          arith,
          is_some-convert_environment env,
          is_some-convert_environments envs (insert env.name s settings),
        )
      ]

  -- The conversion panics exactly if some rule has a bucket version and no minimal one.
  pub is_some-from_v1beta1 :
      (f : Feature) (feature : Api.Feature.GrowthbookFeature)
      → is_some (from_v1beta1 parse_float f feature) ≡ not (has_dangling feature.spec.environments)
  unfolding from_v1beta1
  is_some-from_v1beta1 f feature =
      ground (arith, is_some-convert_environments feature.spec.environments [])

  convert_rule-id :
      (r : Api.Feature.FeatureRule) (q : FeatureRule)
      → convert_rule parse_float r ≡ some q
      → q.id ≡ []
  unfolding convert_rule
  convert_rule-id r q h = ground arith

  convert_rules-Unidentified :
      (rs : List Api.Feature.FeatureRule) (qs : List FeatureRule)
      → convert_rules parse_float rs ≡ some qs
      → Unidentified qs
  unfolding convert_rules
  convert_rules-Unidentified [] qs h = subst Unidentified (some-injective _ _ h) tt
  convert_rules-Unidentified (r ∷ rs) qs h =
      let (q, first, h') = >>=-eq-some (convert_rule parse_float r) _ h in
      let (qs', rest, done) = >>=-eq-some (convert_rules parse_float rs) _ h' in
      subst Unidentified (some-injective _ _ done)
        (convert_rule-id r q first, convert_rules-Unidentified rs qs' rest)

  specified : (enabled : Bool) (rules : List FeatureRule) → EnvironmentSetting
  specified enabled rules = record { enabled = enabled; rules = append none rules }

  specified-IsSpecified :
      (enabled : Bool) (rules : List FeatureRule)
      → Unidentified rules
      → IsSpecified (specified enabled rules)
  unfolding specified
  specified-IsSpecified enabled rules h = record {
    unidentified = rw elems-append h;
    appended = ap (append none) (sym (elems-append none rules));
  }

  convert_environment-IsSpecified :
      (env : Api.Feature.Environment) (s : EnvironmentSetting)
      → convert_environment parse_float env ≡ some s
      → IsSpecified s
  unfolding convert_environment specified
  convert_environment-IsSpecified env s h =
      let (qs, converted, done) = >>=-eq-some (convert_rules parse_float (elems env.rules)) _ h in
      subst IsSpecified (some-injective _ _ done) (
        specified-IsSpecified env.enabled qs
          (convert_rules-Unidentified (elems env.rules) qs converted))

  convert_environments-IsBuilt :
      (envs : List Api.Feature.Environment) (m out : Dict EnvironmentSetting)
      → IsBuilt m
      → convert_environments parse_float envs m ≡ some out
      → IsBuilt out
  unfolding convert_environments
  convert_environments-IsBuilt [] m out b h = subst IsBuilt (some-injective _ _ h) b
  convert_environments-IsBuilt (env ∷ envs) m out b h =
      let (s, converted, rest) = >>=-eq-some (convert_environment parse_float env) _ h in
      convert_environments-IsBuilt envs (insert env.name s m) out
        (insert-IsBuilt env.name s m (convert_environment-IsSpecified env s converted) b) rest

  -- The settings of a converted feature: no environment comes twice, and no rule has an ID.
  pub from_v1beta1-IsBuilt :
      (f g : Feature) (feature : Api.Feature.GrowthbookFeature)
      → from_v1beta1 parse_float f feature ≡ some g
      → IsBuilt (entries g.environment_settings)
  unfolding from_v1beta1
  from_v1beta1-IsBuilt f g feature h =
      let (m, converted, done) =
        >>=-eq-some (convert_environments parse_float feature.spec.environments []) _ h in
      subst (λ (q : Feature). IsBuilt (entries q.environment_settings)) (some-injective _ _ done)
        (convert_environments-IsBuilt feature.spec.environments [] m empty-IsBuilt converted)
