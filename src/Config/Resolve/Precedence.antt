-- ===== src/Config/Resolve/Precedence.antt =====
-- The order of the layers.
use proofload_sh.Prelude.{
  ◌≡◌, refl, ap, sym, ◌∙◌, arith, Bool, true, false, Option, none, some, List, [], ◌∷◌,
  if◌then◌else◌, ℤ, pos, ltb_ℤ, String, ◌==◌, Dict, lookup, string_eq, Option-cases, inl, inr,
}
use proofload_sh.Schedule.{RateSpec, fixed}
use proofload_sh.Config.{ok, and_then, TargetConfig}
use proofload_sh.Config.Resolve.{
  Value, number, text, texts, Koanf, StoreLaws, or_else, ResolveOptions, Settings, first_of,
  is_empty, target_layer, flag_layer, override_layer, read_settings, global_layer, resolve_settings,
}

-- The value that a list of layers, the strongest first, gives to a key.
abbrev pub strongest {ℓ} : {A : Type ℓ} → List (Option A) → Option A
strongest [] = none
strongest (o ∷ os) = or_else o (strongest os)

abbrev pub level_of : Option String → Option Value
level_of none = none
level_of (some level) = some (text level)

abbrev pub chosen_level : String → Option Value
chosen_level level = if level == "" then none else some (text level)

abbrev pub chosen_endpoints : List String → Option Value
chosen_endpoints [] = none
chosen_endpoints (e ∷ es) = some (texts (e ∷ es))

chosen_endpoints-some :
    (es : List String) → chosen_endpoints es ≡ (if is_empty es then none else some (texts es))
chosen_endpoints-some [] = refl
chosen_endpoints-some (e ∷ es) = refl

abbrev pub target_entries : TargetConfig → Dict String Value
target_entries t =
    ("connections", number t.defaults.connections)
    ∷ ("duration", number t.defaults.duration)
    ∷ ("warmup", number t.defaults.warmup)
    ∷ []

-- What the layers say of a key: the overrides, the environment, the options, the target's level of
-- consistency, its defaults, and `held`, what the global file says.
abbrev pub layered :
    ResolveOptions
    → TargetConfig
    → Dict String Value
    → (String → Option Value)
    → String
    → Option Value
layered o t vars held k = strongest (
    lookup k o.overrides
    ∷ lookup k vars
    ∷ (if "endpoints" == k then chosen_endpoints o.endpoints else none)
    ∷ (if "consistency" == k then chosen_level o.consistency else none)
    ∷ (if "consistency" == k then level_of (first_of t.cluster.consistency) else none)
    ∷ lookup k (target_entries t)
    ∷ held k
    ∷ [])

abbrev pub rate_of : ℤ → Option RateSpec
rate_of ops = if ltb_ℤ (pos 0) ops then some (record { mode = fixed; ops_per_sec = ops }) else none

module _ (lib : Koanf) (laws : StoreLaws lib) where
  open lib use {Store, get, load_map, as_number, as_text, as_texts}

  get-override_layer :
      (o : ResolveOptions) (k : String) (s : Store)
      → get k (override_layer lib o s) ≡ or_else (lookup k o.overrides) (get k s)
  unfolding lookup
  get-override_layer o k s =
      elim o.overrides
        as (λ (m : Dict String Value).
          get k (if is_empty m then s else load_map m s) ≡ or_else (lookup k m) (get k s)) [
            | [] ↦ refl
            | x ∷ m ↦ laws.get-load_map k (x ∷ m) s
          ]

  -- Setting a key when a condition holds.
  get-set_unless :
      (b : Bool) (k i : String) (v : Value) (s : Store)
      → get k (if b then s else lib.set i v s)
        ≡ (if b then get k s else if i == k then some v else get k s)
  get-set_unless true k i v s = refl
  get-set_unless false k i v s = laws.get-set k i v s

  get-flag_layer :
      (o : ResolveOptions) (k : String) (s : Store)
      → get k (flag_layer lib o s)
        ≡ or_else
            (if "endpoints" == k then chosen_endpoints o.endpoints else none)
            (or_else (if "consistency" == k then chosen_level o.consistency else none) (get k s))
  get-flag_layer o k s =
      let leveled =
        if o.consistency == "" then s else lib.set "consistency" (text o.consistency) s in
      let first = get-set_unless (is_empty o.endpoints) k "endpoints" (texts o.endpoints) leveled in
      let second = get-set_unless (o.consistency == "") k "consistency" (text o.consistency) s in
      ground (arith, first, second, chosen_endpoints-some o.endpoints)

  get-target_layer :
      (t : TargetConfig) (k : String) (s : Store)
      → get k (target_layer lib t s)
        ≡ or_else
            (if "consistency" == k then level_of (first_of t.cluster.consistency) else none)
            (or_else (lookup k (target_entries t)) (get k s))
  get-target_layer t k s = elim (Option-cases (first_of t.cluster.consistency)) [
    | inl e ↦ ground (arith, e, laws.get-load_map k (target_entries t) s)
    | inr (level, e) ↦ ground (
      arith,
      e,
      laws.get-load_map k (target_entries t) s,
      laws.get-set k "consistency" (text level) (load_map (target_entries t) s),
    )
  ]

  or_else-none : (a : Option Value) → or_else a none ≡ a
  or_else-none none = refl
  or_else-none (some a) = refl

  -- The layers below the environment.
  lower :
      (o : ResolveOptions) (t : TargetConfig) (s : Store) (k : String)
      → or_else (if "endpoints" == k then chosen_endpoints o.endpoints else none) (
          or_else
            (if "consistency" == k then chosen_level o.consistency else none)
            (get k (target_layer lib t s)))
        ≡ strongest (
            (if "endpoints" == k then chosen_endpoints o.endpoints else none)
            ∷ (if "consistency" == k then chosen_level o.consistency else none)
            ∷ (if "consistency" == k then level_of (first_of t.cluster.consistency) else none)
            ∷ lookup k (target_entries t)
            ∷ get k s
            ∷ [])
  lower o t s k =
      let mine : Option Value = if "endpoints" == k then chosen_endpoints o.endpoints else none in
      let next : Option Value = if "consistency" == k then chosen_level o.consistency else none in
      let level : Option Value =
        if "consistency" == k then level_of (first_of t.cluster.consistency) else none in
      ap (λ (v : Option Value). or_else mine (or_else next v))
        (get-target_layer t k s
          ∙ ap (λ (v : Option Value). or_else level (or_else (lookup k (target_entries t)) v))
              (sym (or_else-none (get k s))))

  get-layers :
      (o : ResolveOptions) (t : TargetConfig) (vars : Dict String Value) (s : Store) (k : String)
      → get k (override_layer lib o (load_map vars (flag_layer lib o (target_layer lib t s))))
        ≡ layered o t vars (λ k. get k s) k
  get-layers o t vars s k =
      let below = flag_layer lib o (target_layer lib t s) in
      get-override_layer o k (load_map vars below)
      ∙ ap (or_else (lookup k o.overrides)) (
          laws.get-load_map k vars below
          ∙ ap (or_else (lookup k vars))
              (get-flag_layer o k (target_layer lib t s) ∙ lower o t s k))

  -- With a store that keeps the last value of a key, when the global file was read as the store `g`, or was not
  -- asked for and `g` is empty: the settings are read, and each is what the strongest layer that has its key
  -- says, the overrides before the environment, the options, the target's file and the global file; the rate
  -- is fixed exactly when the value of its key is positive.
  pub resolve_settings-layered :
      (o : ResolveOptions) (t : TargetConfig) (vars : Dict String Value) (g : Store)
      → global_layer lib o ≡ ok g
      → let value = layered o t vars (λ k. get k g) in
        (s : Settings) × (resolve_settings lib o t (some vars) ≡ ok s)
        × (s.connections ≡ as_number (value "connections"))
        × (s.duration ≡ as_number (value "duration"))
        × (s.warmup ≡ as_number (value "warmup"))
        × (s.consistency ≡ as_text (value "consistency"))
        × (s.endpoints ≡ as_texts (value "endpoints"))
        × (s.rate ≡ rate_of (as_number (value "ops_per_sec")))
  unfolding resolve_settings read_settings
  resolve_settings-layered o t vars g e =
      let top = override_layer lib o (load_map vars (flag_layer lib o (target_layer lib t g))) in
      let at = get-layers o t vars g in
      (
        read_settings lib top,
        ap
            (λ r. and_then r (λ (s : Store). ok (
              read_settings lib
                (override_layer lib o (load_map vars (flag_layer lib o (target_layer lib t s)))))))
            e,
        ap as_number (at "connections"),
        ap as_number (at "duration"),
        ap as_number (at "warmup"),
        ap as_text (at "consistency"),
        ap as_texts (at "endpoints"),
        ap (λ v. rate_of (as_number v)) (at "ops_per_sec"),
      )
