-- ===== src/Kbs/PluginManager.antt =====
-- kbs/src/plugins/plugin_manager.rs: the interface of a client plugin, and the plugin manager. `E` is
-- the plugin's error and `W` the state that it keeps.
use trustmee_artifact.Prelude.{Bytes, String, Bool, List, [], ◌∷◌, Result, ok, ◌>>=◌}
use trustmee_artifact.Prelude.Dict
use trustmee_artifact.Prelude.Dict.{Dict}

abbrev pub Query : Type 0
Query = Dict String

-- The arguments of each method: the body, the query, the parts of the path and the HTTP method.
pub record ClientPlugin (E : Type 0) (W : Type 0) : Type 0 where
  pub handle : Bytes → Query → List String → String → W → Result E Bytes × W
  pub validate_auth : Bytes → Query → List String → String → W → Result E Bool
  pub encrypted : Bytes → Query → List String → String → W → Result E Bool

module _ {E W Config : Type 0} where
  -- `collect` into a `Result` of a map: the first plugin that fails to start ends it, and of two
  -- plugins with one name the later is kept.
  collect_plugins :
      (Config → String)
      → (Config → Result E (ClientPlugin E W))
      → Dict (ClientPlugin E W)
      → List Config
      → Result E (Dict (ClientPlugin E W))
  collect_plugins name_of start plugins [] = ok plugins
  collect_plugins name_of start plugins (cfg ∷ cfgs) = do
    plugin ← start cfg
    collect_plugins name_of start (Dict.insert (name_of cfg) plugin plugins) cfgs

  -- `PluginManager::try_from`
  unfoldable pub try_from :
      (Config → String)
      → (Config → Result E (ClientPlugin E W))
      → List Config
      → Result E (Dict (ClientPlugin E W))
  unfolding collect_plugins
  try_from name_of start = collect_plugins name_of start []
