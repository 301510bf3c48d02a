-- ===== src/Plugin/Registry.antt =====
-- `PluginRegistry` (crates/labrys-core/src/plugin.rs).
use labrys.Base.{
  Bool, true, false, not, ◌&&◌, Option, none, some, [], Text, text_eq, find, values, TreeMap,
  lookup, insert, ok, err, plugin, Method, if◌then◌else◌,
}
use labrys.Plugin.Handshakes.{PluginManifest, PluginFamily, same_family}
use labrys.Plugin.Processes.{PluginProcess, is_active, connect}

pub record PluginRegistry : Type 0 where
  pub plugins : TreeMap PluginProcess

unfoldable pub new_registry : PluginRegistry
new_registry = record { plugins = [] }

-- Another active plugin of the family.
abbrev pub is_rival : PluginManifest → PluginProcess → Bool
is_rival m p =
    same_family p.manifest.family m.family && is_active p.state && not (text_eq p.manifest.id m.id)

abbrev pub was_refused : PluginProcess → Bool
was_refused p = elim p.refusal [ some _ ↦ true | none ↦ false ]

abbrev pub holds_rival : PluginManifest → PluginRegistry → Bool
holds_rival m r = elim (find (is_rival m) (values r.plugins)) [ some _ ↦ true | none ↦ false ]

unfoldable pub register : PluginManifest → Method PluginRegistry PluginFamily
unfolding connect insert
register m r =
    let stored : PluginRegistry = record { plugins = insert m.id (connect m) r.plugins } in
    if was_refused (connect m)
    then (err plugin, stored)
    else if holds_rival m r
    then (err plugin, r)
    else (ok m.family, stored)

unfoldable pub get_plugin : Text → PluginRegistry → Option PluginProcess
unfolding lookup
get_plugin id r = lookup id r.plugins

unfoldable pub active_for : PluginFamily → PluginRegistry → Option PluginProcess
active_for family r =
    find (λ p. same_family p.manifest.family family && is_active p.state) (values r.plugins)
