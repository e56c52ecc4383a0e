-- ===== src/Config/Priority.antt =====
-- Which source of a setting wins.
use study_project_metrics_an.Base.{
  String, ◌≡◌, ◌⊎◌, refl, ◌∙◌, ap, true, Bool-cases, inl, inr, Option, none, some, List, [], ◌∷◌,
  ◌==◌, eqb, if◌then◌else◌,
}
use study_project_metrics_an.Base.Int64.{Int64}
use study_project_metrics_an.Base.Assoc.{lookup}
use study_project_metrics_an.Config.{
  ServerConfig, ServerJson, Flags, Libs, flag, typed, server_defaults, server_config_from_json,
  with_flags, parse_json, no_arguments, with_interval, finish, overlay, fill,
}

-- Documented behaviour at two fields, a text and a number: mergo fills what is empty, and env sets
-- what has a variable that is not empty. `getenv` gives "" for a variable that is not set.
pub record IsLibs (libs : Libs) (getenv : String → String) : Type 0 where
  pub merge_address :
      (d s r : ServerConfig)
      → libs.merge d s ≡ some r
      → r.address ≡ (if d.address == "" then s.address else d.address)
  pub merge_interval :
      (d s r : ServerConfig)
      → libs.merge d s ≡ some r
      → r.store_interval_sec
        ≡ (if eqb d.store_interval_sec 0 then s.store_interval_sec else d.store_interval_sec)
  pub env_address :
      (c r : ServerConfig)
      → libs.env c ≡ some r
      → r.address ≡ (if getenv "ADDRESS" == "" then c.address else getenv "ADDRESS")
  pub env_interval :
      (c r : ServerConfig)
      → libs.env c ≡ some r
      → (getenv "STORE_INTERVAL" == "") ≡ true
      → r.store_interval_sec ≡ c.store_interval_sec

no_arguments-eq :
    (rest : List String) (c cfg : ServerConfig) → no_arguments rest c ≡ some cfg → c ≡ cfg
no_arguments-eq [] c cfg h = cc
no_arguments-eq (a ∷ rest) c cfg h = cc

finish-eq :
    (f : Flags) (o : Option ServerConfig) (cfg : ServerConfig)
    → finish f o ≡ some cfg
    → o ≡ some cfg
finish-eq f none cfg h = h
finish-eq f (some c) cfg h = ap some (no_arguments-eq f.rest c cfg h)

overlay-eq :
    (libs : Libs) (f : Flags) (o : Option ServerConfig) (cfg : ServerConfig)
    → overlay libs f o ≡ some cfg
    → (merged : ServerConfig) × (o ≡ some merged) × (libs.env (with_flags f merged) ≡ some cfg)
overlay-eq libs f none cfg h = cc
overlay-eq libs f (some merged) cfg h =
    (merged, refl, finish-eq f (libs.env (with_flags f merged)) cfg h)

with_interval-eq :
    (j : ServerJson) (o : Option Int64) (c : ServerConfig)
    → with_interval j o ≡ some c
    → (n : Int64) × (o ≡ some n) × (c ≡ typed j n)
with_interval-eq j none c h = cc
with_interval-eq j (some n) c h = (n, refl, cc)

typed-eq :
    (seconds : String → Option Int64) (j : ServerJson) (c : ServerConfig)
    → server_config_from_json seconds j ≡ some c
    → (c ≡ typed j 0) ⊎ ((n : Int64) × (seconds j.store_interval ≡ some n) × (c ≡ typed j n))
unfolding server_config_from_json
typed-eq seconds j c h = elim (Bool-cases (j.store_interval == "")) [
  | inl empty ↦
      let direct : some (typed j 0) ≡ some c = rw (empty, server_config_from_json) at h in inl cc
  | inr given ↦
      inr
        (with_interval-eq j (seconds j.store_interval) c (rw (given, server_config_from_json) at h))
]

fill-eq :
    (libs : Libs) (f : Flags) (o : Option ServerConfig) (cfg : ServerConfig)
    → fill libs f o ≡ some cfg
    → (from_json : ServerConfig) × (merged : ServerConfig) × (o ≡ some from_json)
      × (libs.merge from_json server_defaults ≡ some merged)
      × (libs.env (with_flags f merged) ≡ some cfg)
fill-eq libs f none cfg h = cc
fill-eq libs f (some from_json) cfg h =
    let (merged, merges, last) = overlay-eq libs f (libs.merge from_json server_defaults) cfg h in
    (from_json, merged, refl, merges, last)

abbrev pub or_text : String → String → String
or_text t other = if t == "" then other else t

module _ (libs : Libs) (getenv : String → String) (law : IsLibs libs getenv) (f : Flags)
    (j : ServerJson) (cfg : ServerConfig) (parsed : parse_json libs f j ≡ some cfg) where
  -- The address of a server whose flags parse is the first of these that is there: the variable
  -- ADDRESS, the flag -a, the address of the file, the default.
  pub parse_json-address :
      cfg.address
      ≡ or_text
          (getenv "ADDRESS")
          (flag (lookup "a" f.texts) (or_text j.address server_defaults.address))
  unfolding parse_json with_flags
  parse_json-address =
      let (from_json, merged, reads, merges, last) =
        fill-eq libs f (server_config_from_json libs.seconds j) cfg parsed in
      let file : from_json.address ≡ j.address = elim (typed-eq libs.seconds j from_json reads) [
        | inl e ↦ ap (λ c. c.address) e
        | inr (n, r, e) ↦ ap (λ c. c.address) e
      ] in
      law.env_address (with_flags f merged) cfg last
      ∙ ap (λ t. or_text (getenv "ADDRESS") (flag (lookup "a" f.texts) t))
          (law.merge_address from_json server_defaults merged merges
            ∙ ap (λ t. or_text t server_defaults.address) file)

  -- A file cannot ask for synchronous saving: where its interval is read as 0 seconds and
  -- neither the flag -i nor the variable STORE_INTERVAL is set, the interval is the default of 300
  -- seconds.
  pub parse_json-interval :
      libs.seconds j.store_interval ≡ some 0
      → lookup "i" f.numbers ≡ none
      → (getenv "STORE_INTERVAL" == "") ≡ true
      → cfg.store_interval_sec ≡ 300
  unfolding parse_json with_flags
  parse_json-interval zero unset no_env =
      let (from_json, merged, reads, merges, last) =
        fill-eq libs f (server_config_from_json libs.seconds j) cfg parsed in
      let file : from_json.store_interval_sec ≡ 0 = elim (typed-eq libs.seconds j from_json reads) [
        | inl e ↦ ap (λ c. c.store_interval_sec) e
        | inr (n, r, e) ↦ cc
      ] in
      let filled : merged.store_interval_sec ≡ 300 =
        law.merge_interval from_json server_defaults merged merges ∙ rw file refl in
      law.env_interval (with_flags f merged) cfg last no_env ∙ rw unset filled
