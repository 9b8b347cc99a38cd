-- ===== src/Config/Server/Laws.antt =====
-- What a configuration is that `InitServerConfig` hands to the server.
use lepg.Base.{Bytes, List, [], ◌∷◌, map, All, Option, none, some, ◌≡◌, refl, ap, ◌∙◌}
use lepg.Base.Int.{ℤ}
use lepg.Server.World.{ClientDef}
use lepg.Config.Client.{ValidationErrors, no_error, one_error, all_errors}
use lepg.Output.{OutputConfig, OutputError, with_defaults, validate_output}
use lepg.Output.Sinks.{config_of, enabled_outputs, output_sinks, output_sinks_complete}
use lepg.Config.Server.{
  ServerConfig, validate_server, first_error, validate_outputs, configured, check_settings,
  check_outputs, init_server_config,
}

first_error-none :
    (first rest : Option OutputError)
    → first_error first rest ≡ none
    → (first ≡ none) × (rest ≡ none)
first_error-none none rest h = (refl, h)
first_error-none (some e) rest h = cc

outputs_passed :
    (outputs : List OutputConfig)
    → validate_outputs outputs ≡ none
    → All (λ o. (validate_output o).0 ≡ none) outputs
unfolding validate_outputs
outputs_passed [] h = tt
outputs_passed (o ∷ outputs) h =
    let (first, rest) = first_error-none (validate_output o).0 (validate_outputs outputs) h in
    (first, outputs_passed outputs rest)

settings_passed :
    (c out : ServerConfig) (errs : ValidationErrors)
    → check_settings c errs ≡ configured out
    → (errs ≡ no_error) × (out ≡ c)
settings_passed c out no_error h = (refl, cc)
settings_passed c out (one_error e) h = cc
settings_passed c out (all_errors errs) h = cc

checks_passed :
    (c out : ServerConfig) (e : Option OutputError)
    → check_outputs c e ≡ configured out
    → (e ≡ none) × (validate_server c ≡ no_error) × (out ≡ c)
checks_passed c out (some e) h = cc
checks_passed c out none h =
    let (good, same) = settings_passed c out (validate_server c) h in (refl, good, same)

-- A configuration that `InitServerConfig` hands out has settings that their validation accepts, and the
-- outputs that were decoded, each accepted by its validation: the defaults that this sets are not in
-- them.
init_server_config-configured :
    (c out : ServerConfig) (clients : List ClientDef) (outputs : List OutputConfig)
    → init_server_config (some c) (some (some clients, some outputs)) ≡ configured out
    → (out.outputs ≡ outputs)
      × All (λ o. (validate_output o).0 ≡ none) out.outputs
      × (validate_server out ≡ no_error)
unfolding init_server_config
init_server_config-configured c out clients outputs h =
    let c' : ServerConfig = record c { clients = clients; outputs = outputs } in
    let (valid, settings, same) = checks_passed c' out (validate_outputs outputs) h in
    (
      ap (λ (d : ServerConfig). d.outputs) same,
      rw same (outputs_passed outputs valid),
      rw same settings,
    )

-- For a configuration that `InitServerConfig` hands out, with the outputs that were decoded, the server
-- makes one sink for each enabled output and skips none: in order, and with the defaults that the
-- validation of an output sets, which the configuration itself does not have.
pub output_sinks-init_server_config :
    (format_int : ℤ → Bytes) (c out : ServerConfig) (clients : List ClientDef)
    (outputs : List OutputConfig)
    → init_server_config (some c) (some (some clients, some outputs)) ≡ configured out
    → (out.outputs ≡ outputs)
      × (map config_of (output_sinks format_int out.outputs)
          ≡ map with_defaults (enabled_outputs outputs))
output_sinks-init_server_config format_int c out clients outputs h =
    let (same, valid, _) = init_server_config-configured c out clients outputs h in
    (
      same,
      output_sinks_complete format_int out.outputs valid
          ∙ ap (λ (os : List OutputConfig). map with_defaults (enabled_outputs os)) same,
    )
