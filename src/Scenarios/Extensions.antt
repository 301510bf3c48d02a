-- ===== src/Scenarios/Extensions.antt =====
-- Plugins: registrations, and the calls of a process.
use labrys.Base.{arith, ◌≡◌, none, List, [], ◌∷◌, Text, text, ok}
use labrys.Plugin.Handshakes.{PluginManifest, new_manifest, binding_provider}
use labrys.Plugin.Processes.{connect, flight}
use labrys.Plugin.Registry.{new_registry}
use labrys.Plugin.Numbering.{Call, invocation, beginning, cancelling, calls, flight-connect-calls}
use labrys.Plugin.Exclusion.{IsExclusive, register_all, register_all-IsExclusive}

abbrev binder : PluginManifest
binder = new_manifest (text "b1") (text "binder") binding_provider 1 (text "binding.resolve" ∷ [])

abbrev second_binder : PluginManifest
second_binder =
    new_manifest (text "b2") (text "binder two") binding_provider 1 (text "binding.resolve" ∷ [])

abbrev outdated : PluginManifest
outdated = new_manifest (text "b3") (text "old") binding_provider 7 []

register_all-IsExclusive_example :
    IsExclusive (register_all (binder ∷ second_binder ∷ outdated ∷ []) new_registry)
register_all-IsExclusive_example = register_all-IsExclusive (binder ∷ second_binder ∷ outdated ∷ [])

abbrev work : List (Call Text)
work =
    beginning 4 (text "binding.resolve")
    ∷ invocation (text "binding.resolve") (text "{}") (λ method params. ok params)
    ∷ cancelling 4
    ∷ beginning 9 (text "binding.resolve")
    ∷ []

flight-connect-calls_example :
    flight (calls work (connect binder)).next_call_id (calls work (connect binder)).in_flight ≡ none
flight-connect-calls_example =
    flight-connect-calls binder 10 work (omega arith) (omega arith)
      (omega arith, (tt, (tt, (omega arith, tt))))
