-- ===== src/Config/Outcome.antt =====
-- config/config.go: when Load and LoadFromBytes succeed, and what their errors carry.
use lunaship.Base.{
  String, Option, none, some, [], ◌∷◌, ◌≡◌, refl, ◌↔◌, ok, arith, Result-cases, ◌⊎◌, inl, inr, sym,
  err-ne-ok, ok-injective, ap, Option-cases, subst,
}
use lunaship.ConfigParse.{Problems, add, has_errors, add_decode_error, add_unused, add_unused_paths}
use lunaship.Base.Text.{contains}
use lunaship.ConfigParse.Lookup.{Fields}
use lunaship.Config.Report.{IsClean}
use lunaship.Config.App.{AppSection, validate_app}
use lunaship.Config.Instances.{validate_mysql, validate_redis}
use lunaship.Config.Kafka.{validate_kafka, validate_producers}
use lunaship.Config.Load.{
  AppConfig, Decoded, Loader, default_config, normalized, validate_config, decode_problems,
  check_config, raw_of, load_fields, load_from_bytes, load, IsValidConfig,
  validate_config-IsValidConfig,
}
use lunaship.Config.Reported.{
  IsThere, report-IsThere, redis_instances-IsThere, mysql-IsThere, producers-IsThere,
  consumers-IsThere, unused_paths-IsThere, unused_paths-IsClean,
}

module _ {B F : Type 0} (libs : Loader B F) where
  app-IsThere :
      (c : AppSection F) (problems : Problems)
      → IsThere problems
      → IsThere (validate_app libs.lower libs.float c problems)
  unfolding validate_app
  app-IsThere c problems h = search report-IsThere fits 20000 depth 9

  validate_config-IsThere :
      (c : AppConfig F) (problems : Problems)
      → IsThere problems
      → IsThere (validate_config libs c problems)
  unfolding validate_config validate_kafka validate_redis
  validate_config-IsThere c problems h =
      let p₁ = validate_app libs.lower libs.float c.app problems in
      let p₂ = validate_redis c.redis p₁ in
      let p₃ = validate_mysql c.mysql p₂ in
      consumers-IsThere c.kafka.consumer (validate_producers c.kafka.producer p₃) (
        producers-IsThere c.kafka.producer p₃ (
          mysql-IsThere c.mysql p₂
            (redis_instances-IsThere c.redis.instances p₁ (app-IsThere c.app problems h))))

  -- Decoding went well and used every field.
  abbrev pub IsFullyUsed : Decoded (AppConfig F) → Type 0
  IsFullyUsed d = (d.failure ≡ none) × ((d.unused ≡ none) ⊎ (d.unused ≡ some []))

  decode_problems-IsThere : (d : Decoded (AppConfig F)) → IsThere (decode_problems libs d)
  unfolding decode_problems add_unused add_decode_error add
  decode_problems-IsThere d = elim (Option-cases d.unused) [
    | inl e ↦ ground arith
    | inr (paths, e) ↦
        simp e (unused_paths-IsThere paths (add_decode_error (some []) "" d.failure) (ground arith))
  ]

  decode_problems-IsFullyUsed :
      (d : Decoded (AppConfig F)) → IsClean (decode_problems libs d) ↔ IsFullyUsed d
  unfolding decode_problems add_unused add_decode_error add add_unused_paths contains
  decode_problems-IsFullyUsed d = (
    (λ clean. elim (Option-cases d.unused) [
      | inl e ↦ ground arith
      | inr (paths, e) ↦
          let (e₁, empty) =
            unused_paths-IsClean paths (add_decode_error (some []) "" d.failure)
              (simp e at clean) in
          ground arith
    ]),
    (λ used. ground arith),
  )

  check_config-ok :
      (c c' : AppConfig F) (problems : Problems)
      → IsThere problems
      → (check_config libs c problems ≡ ok c') ↔ (IsClean problems × (c ≡ c'))
  unfolding check_config has_errors
  check_config-ok c c' none h = absurd (h refl)
  check_config-ok c c' (some []) h = (λ e. (refl, ok-injective e), λ e. ap ok e.1)
  check_config-ok c c' (some (d ∷ ds)) h = (λ e. absurd (err-ne-ok e), λ e. cc)

  -- LoadFromBytes accepts a parsed file exactly when it decodes without error, no field of it is
  -- unknown, and after normalisation every section is valid; the result is the normalised
  -- configuration.
  pub load_fields-ok :
      (raw : Fields) (c : AppConfig F)
      → (load_fields libs raw ≡ ok c) ↔ (
          IsFullyUsed (libs.decode raw (default_config libs raw))
          × IsValidConfig libs c
          × (normalized libs (libs.decode raw (default_config libs raw)).target ≡ c))
  unfolding load_fields
  load_fields-ok raw c =
      let d = libs.decode raw (default_config libs raw) in
      let there =
        validate_config-IsThere (normalized libs d.target) (decode_problems libs d)
          (decode_problems-IsThere d) in
      let (accept, reject) =
        check_config-ok (normalized libs d.target) c
          (validate_config libs (normalized libs d.target) (decode_problems libs d)) there in
      (
        (λ e.
            let (clean, same) = accept e in
            let (used, valid) =
              (validate_config-IsValidConfig libs (normalized libs d.target)
                  (decode_problems libs d)).0
                clean in
            ((decode_problems-IsFullyUsed d).0 used, subst (IsValidConfig libs) same valid, same)),
        (λ (used, valid, same). reject (
          (validate_config-IsValidConfig libs (normalized libs d.target) (decode_problems libs d)).1
              ((decode_problems-IsFullyUsed d).1 used, subst (IsValidConfig libs) (sym same) valid),
          same,
        )),
      )

  -- What Load returns comes from a file that was read and parsed, and every section of it is valid.
  pub load-IsValidConfig :
      (path : String) (c : AppConfig F)
      → load libs path ≡ ok c
      → (body : B) × (raw : Option Fields) × (libs.read_file path ≡ ok body)
        × (libs.unmarshal body ≡ ok raw)
        × IsValidConfig libs c
  unfolding load load_from_bytes
  load-IsValidConfig path c e = elim (Result-cases (libs.read_file path)) [
    | inl (x, bad) ↦ absurd (err-ne-ok (rw (bad, load) at e))
    | inr (body, good) ↦ elim (Result-cases (libs.unmarshal body)) [
      | inl (x, bad) ↦ absurd (err-ne-ok (rw (good, bad, load, load_from_bytes) at e))
      | inr (raw, parsed) ↦ (
        body,
        raw,
        good,
        parsed,
        ((load_fields-ok (raw_of libs raw) c).0 (rw (good, parsed, load, load_from_bytes) at e)).1,
      )
    ]
  ]
