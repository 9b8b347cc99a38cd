-- ===== src/Output/Sinks.antt =====
-- internal/output: `NewSinker` with the constructors of the two sinks, and the loop of
-- cmd/server/main.go that makes the sinks of a configuration. The printing of an int is a parameter.
use lepg.Base.{
  Bytes, codes, bytes_eq, Bool, Bool-cases, inl, inr, true, false, List, [], ◌∷◌, ◌++◌, map, All,
  Option, none, some, ◌≡◌, refl, ap, ◌∙◌, if◌then◌else◌,
}
use lepg.Base.Int.{ℤ}
use lepg.Config.ValidationError.{is_empty}
use lepg.Output.{
  OutputConfig, OutputError, unknown_type, is_sink_type, with_defaults, validate_output,
}

-- `tbMqttSinker`, `tbHttpSinker` with its URL
pub data Sink : Type 0 where
  mqtt_sinker : OutputConfig → Sink
  http_sinker : OutputConfig → Bytes → Sink

abbrev pub config_of : Sink → OutputConfig
config_of (mqtt_sinker c) = c
config_of (http_sinker c url) = c

pub data Made : Type 0 where
  not_made : OutputError → Made
  made : Sink → Made

-- The outputs that are switched on.
abbrev pub enabled_outputs : List OutputConfig → List OutputConfig
enabled_outputs [] = []
enabled_outputs (o ∷ outputs) =
    let rest = enabled_outputs outputs in if o.enabled then o ∷ rest else rest

module _ (format_int : ℤ → Bytes) where
  abbrev scheme_of : OutputConfig → Bytes
  scheme_of c = if is_empty c.scheme then codes "https" else c.scheme

  -- `fmt.Sprintf("%s://%s:%d/api/v1/%s/telemetry", ...)`
  abbrev url_of : OutputConfig → Bytes
  url_of c =
      scheme_of c
      ++ (codes "://"
          ++ (c.host
              ++ (codes ":"
                  ++ (format_int c.port ++ (codes "/api/v1/" ++ (c.token ++ codes "/telemetry"))))))

  -- `NewThingsBoardMqttSinker`, behind its validation
  abbrev new_mqtt_sinker : Option OutputError × OutputConfig → Made
  new_mqtt_sinker (some e, c) = not_made e
  new_mqtt_sinker (none, c) = made (mqtt_sinker c)

  -- `NewThingsBoardHttpSinker`, behind its validation
  abbrev new_http_sinker : Option OutputError × OutputConfig → Made
  new_http_sinker (some e, c) = not_made e
  new_http_sinker (none, c) = made (http_sinker c (url_of c))

  -- `NewSinker`
  unfoldable pub new_sinker : OutputConfig → Made
  new_sinker c =
      if bytes_eq c.type (codes "thingsboard-mqtt")
      then new_mqtt_sinker (validate_output c)
      else (if bytes_eq c.type (codes "thingsboard-http")
          then new_http_sinker (validate_output c)
          else not_made unknown_type)

  -- `append(sinks, sink)`, or `continue` on an error
  abbrev with_sink : Made → List Sink → List Sink
  with_sink (not_made e) sinks = sinks
  with_sink (made s) sinks = s ∷ sinks

  -- The loop over the outputs of a configuration.
  unfoldable pub output_sinks : List OutputConfig → List Sink
  output_sinks [] = []
  output_sinks (o ∷ outputs) =
      let rest = output_sinks outputs in if o.enabled then with_sink (new_sinker o) rest else rest

  validated :
      (c : OutputConfig)
      → (validate_output c).0 ≡ none
      → (is_sink_type c.type ≡ true) × (validate_output c ≡ (none, with_defaults c))
  unfolding validate_output
  validated c h = elim (Bool-cases (is_empty c.name)) [
    | inl unnamed ↦ cc (rw unnamed at h)
    | inr named ↦ elim (Bool-cases (is_sink_type c.type)) [
      | inr unknown ↦ cc (rw (named, unknown) at h)
      | inl known ↦ elim (Bool-cases (is_empty c.host)) [
        | inl hostless ↦ cc (rw (named, known, hostless) at h)
        | inr hosted ↦ elim (Bool-cases (is_empty c.token)) [
          | inl tokenless ↦ cc (rw (named, known, hosted, tokenless) at h)
          | inr full ↦ (known, rw (named, known, hosted, full) refl)
        ]
      ]
    ]
  ]

  -- An output that its validation accepts is made into a sink, with the defaults set.
  new_sinker_accepts :
      (c : OutputConfig)
      → (validate_output c).0 ≡ none
      → (s : Sink) × (new_sinker c ≡ made s) × (config_of s ≡ with_defaults c)
  unfolding new_sinker
  new_sinker_accepts c h =
      let (known, all) = validated c h in
      elim (Bool-cases (bytes_eq c.type (codes "thingsboard-mqtt"))) [
        | inl is_mqtt ↦ (mqtt_sinker (with_defaults c), rw (is_mqtt, all) refl, refl)
        | inr other ↦
            let is_http : bytes_eq c.type (codes "thingsboard-http") ≡ true = rw other at known in
            (
              http_sinker (with_defaults c) (url_of (with_defaults c)),
              rw (other, is_http, all) refl,
              refl,
            )
      ]

  enabled_step :
      (b : Bool) (m : Made) (s : Sink) (o : OutputConfig) (sinks : List Sink)
      (rest : List OutputConfig)
      → m ≡ made s
      → config_of s ≡ with_defaults o
      → map config_of sinks ≡ map with_defaults rest
      → map config_of (if b then with_sink m sinks else sinks)
        ≡ map with_defaults (if b then o ∷ rest else rest)
  enabled_step true m s o sinks rest is_made same h =
      rw is_made
        (ap (λ (c : OutputConfig). c ∷ map config_of sinks) same ∙ ap (◌∷◌ (with_defaults o)) h)
  enabled_step false m s o sinks rest is_made same h = h

  -- Outputs that their validation accepts: the enabled ones all get a sink, in order, with the
  -- defaults set.
  pub output_sinks_complete :
      (outputs : List OutputConfig)
      → All (λ o. (validate_output o).0 ≡ none) outputs
      → map config_of (output_sinks outputs) ≡ map with_defaults (enabled_outputs outputs)
  unfolding output_sinks
  output_sinks_complete [] h = refl
  output_sinks_complete (o ∷ outputs) (good, h) =
      let (s, is_made, same) = new_sinker_accepts o good in
      enabled_step o.enabled (new_sinker o) s o (output_sinks outputs) (enabled_outputs outputs)
        is_made same (output_sinks_complete outputs h)
