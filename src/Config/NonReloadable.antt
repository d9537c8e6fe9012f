-- ===== src/Config/NonReloadable.antt =====
-- internal/config/diff.go: the changed sections that a reload does not apply. `reflect.DeepEqual` is a
-- parameter for each section: it tells a nil slice from an empty one and compares floats as Go does, and
-- `Settings` keeps neither apart.
use dbbridge.Base.{Bool, true, false, String, Option, List, [], ◌∷◌, ◌++◌}
use dbbridge.Config.Load.{Settings, InstanceConfig, ServerConfig, StorageConfig}
use dbbridge.Authn.{TokenSpec}
use dbbridge.Config.Diff.{int_beq}

pub record DeepEqual : Type 0 where
  pub instance_ : InstanceConfig → InstanceConfig → Bool
  pub server : ServerConfig → ServerConfig → Bool
  pub storage : StorageConfig → StorageConfig → Bool
  pub auth : Option (List TokenSpec) → Option (List TokenSpec) → Bool

-- The name of a section, if it has changed.
abbrev changed : Bool → String → List String
changed true name = []
changed false name = name ∷ []

unfoldable pub non_reloadable_changes : DeepEqual → Settings → Settings → List String
non_reloadable_changes same old_cfg new_cfg =
    changed (same.instance_ old_cfg.instance_ new_cfg.instance_) "instance"
    ++ changed (same.server old_cfg.server new_cfg.server) "server"
    ++ changed (same.storage old_cfg.storage new_cfg.storage) "storage"
    ++ changed (same.auth old_cfg.auth new_cfg.auth) "auth"
    ++ changed
        (int_beq old_cfg.defaults.max_concurrent_queries new_cfg.defaults.max_concurrent_queries)
        "defaults.max_concurrent_queries"
