-- ===== src/Infra/Tracing/Laws.antt =====
-- infra/trace.go: what InitTracing leaves behind.
use lunaship.Base.{
  true, false, Option, none, some, Result, ok, err, ◌≡◌, refl, Bool-cases, inl, inr, Option-cases,
  Result-cases,
}
use lunaship.Config.App.{Floats, lowered}
use lunaship.Base.{◌==◌}
use lunaship.Infra.Tracing.{TraceConfig}
use lunaship.Infra.Tracing.Export.{
  Sampler, never_sample, always_sample, parent_based_ratio, clamp_sampler_rate, build_sampler,
  TraceError, otlp_http_options,
}
use lunaship.Infra.Tracing.Init.{Provider, Globals, Libraries, protocol_is_supported, init_tracing}

-- What the rates 0 and 1 have of the order of float64.
pub record IsUnitOrder {F : Type 0} (float : Floats F) : Type 0 where
  pub zero_zero : float.less (float.literal "0") (float.literal "0") ≡ false
  pub one_zero : float.less (float.literal "1") (float.literal "0") ≡ false
  pub one_one : float.less (float.literal "1") (float.literal "1") ≡ false

-- A ratio is not below 0 and not above 1, which is also true of a float64 that is no number.
abbrev pub IsNotBeyond : {F : Type 0} → Floats F → Sampler F → Type 0
IsNotBeyond float never_sample = Unit
IsNotBeyond float always_sample = Unit
IsNotBeyond float (parent_based_ratio rate) =
    (float.less rate (float.literal "0") ≡ false) × (float.less (float.literal "1") rate ≡ false)

clamp-IsNotBeyond :
    {F : Type 0} (float : Floats F) (rate : F)
    → IsUnitOrder float
    → IsNotBeyond float (parent_based_ratio (clamp_sampler_rate float rate))
unfolding clamp_sampler_rate
clamp-IsNotBeyond float rate o = elim (Bool-cases (float.less rate (float.literal "0"))) [
  | inl below ↦ rw below (o.zero_zero, o.one_zero)
  | inr least ↦ elim (Bool-cases (float.less (float.literal "1") rate)) [
    | inl above ↦ rw (least, above) (o.one_zero, o.one_one)
    | inr most ↦ rw (least, most) (least, most)
  ]
]

module _ {E F : Type 0} (libs : Libraries E F) where
  abbrev pub Answer : Type 0
  Answer = Result (TraceError E) (Option (Provider F))

  -- The globals once tracing is enabled, before anything can fail: the flag and the error handler are set.
  abbrev pub handled : TraceConfig F → Globals F → Globals F
  handled conf g = record g { error_log_disabled = conf.error_log_disabled; handler_set = true }

  -- What each answer of InitTracing says of the globals.
  abbrev pub Installs : TraceConfig F → Answer → Globals F → Globals F → Type 0
  Installs conf (err e) g end = (conf.enabled ≡ true) × (end ≡ handled conf g)
  Installs conf (ok none) g end = (conf.enabled ≡ false) × (end ≡ g)
  Installs conf (ok (some p)) g end =
      (conf.enabled ≡ true)
      × (end ≡ record (handled conf g) { closer = some p; provider = some p })
      × IsNotBeyond libs.float p.sampler

  sampler-IsNotBeyond :
      (conf : TraceConfig F)
      → IsUnitOrder libs.float
      → IsNotBeyond libs.float (build_sampler libs.float libs.lower libs.is_zero conf)
  unfolding build_sampler
  sampler-IsNotBeyond conf o = elim (Bool-cases (lowered libs.lower conf.sampler_type == "const")) [
    | inl const ↦ elim (Bool-cases (libs.is_zero conf.sampler_rate)) [
      | inl zero_rate ↦ rw (const, zero_rate) tt
      | inr positive ↦ rw (const, positive) tt
    ]
    | inr ratio ↦ rw ratio (clamp-IsNotBeyond libs.float conf.sampler_rate o)
  ]

  -- What InitTracing leaves. When tracing is not enabled, nothing changes. With an error, the flag for the
  -- log of errors and the error handler are set, and the provider and the closer stay as they were. Else
  -- also the provider that is made is installed, and it is what CloseTracing shuts down; its sampler is
  -- constant or has a ratio that does not compare as below 0 or above 1, whatever the configured rate,
  -- which leaves a rate that is no number as it is. Of float64 the comparisons of 0 and 1 are assumed.
  pub init_tracing-Installs :
      (conf : TraceConfig F) (g : Globals F)
      → IsUnitOrder libs.float
      → Installs conf (init_tracing libs conf g).0 g (init_tracing libs conf g).1
  unfolding init_tracing build_sampler
  init_tracing-Installs conf g o = elim (Bool-cases conf.enabled) [
    | inr off ↦ rw off (refl, refl)
    | inl on ↦ elim (Bool-cases (protocol_is_supported conf)) [
      | inr unsupported ↦ rw (unsupported, on) (refl, refl)
      | inl supported ↦ elim (Result-cases (otlp_http_options libs.parse_url conf)) [
        | inl (e, failed) ↦ rw (supported, failed, on) (refl, refl)
        | inr (options, found) ↦ elim (Option-cases (libs.new_exporter options)) [
          | inr (e, failed) ↦ rw (supported, found, failed, on) (refl, refl)
          | inl made ↦ elim (Option-cases (libs.new_resource conf.service_name)) [
            | inr (e, failed) ↦ rw (supported, found, made, failed, on) (refl, refl)
            | inl named ↦
                rw (supported, found, made, named, on) (refl, refl, sampler-IsNotBeyond conf o)
          ]
        ]
      ]
    ]
  ]
