-- ===== src/Manager/Reload/Applied.antt =====
-- What a reload leaves in force.
use dbbridge.Base.{
  ℕ, String, ◌≡◌, refl, ap, sym, subst, [], Option, Result, ok, err, Result-cases, inl, inr, ◌⊎◌,
}
use dbbridge.Base.Assoc.{lookup}
use dbbridge.Config.{DatabaseConfig}
use dbbridge.Config.Databases.{configured}
use dbbridge.Config.Load.{Settings, ConfigError, live, validate}
use dbbridge.Config.NonReloadable.{DeepEqual}
use dbbridge.Config.Load.Valid.{IsSound, validate-IsSound}
use dbbridge.Manager.Defs.{Manager}
use dbbridge.Manager.Pools.{sync_pools}
use dbbridge.Manager.Pools.Served.{IsSynced, sync_pools-lookup}
use dbbridge.Manager.Reload.{ReloadReport, Reloaded, load_config, apply_config, reload}

module _ (same : DeepEqual) (open_pool : DatabaseConfig → Option ℕ) (old_cfg : Settings)
    (m : Manager) where
  -- These settings are in force, they are sound, and the pools follow them.
  abbrev pub IsApplied : Settings → Reloaded → Type 0
  IsApplied cfg after =
      (after.settings ≡ cfg)
      × ((after.manager.cfg ≡ live cfg)
          × (IsSound cfg
              × ((id : String)
                  → IsSynced open_pool (configured id cfg.databases) (lookup id m.db_pools)
                      (lookup id after.manager.db_pools))))

  abbrev pub unchanged : Reloaded
  unchanged = record { settings = old_cfg; manager = m; retired = [] }

  -- What becomes of a file.
  abbrev pub IsReloaded :
      Result ConfigError Settings → Result ConfigError ReloadReport × Reloaded → Type 0
  IsReloaded file out =
      ((e : ConfigError) × ((file ≡ err e) × (out ≡ (err e, unchanged))))
      ⊎ (((raw : Settings) × ((e : ConfigError) × ((file ≡ ok raw)
                × ((validate raw ≡ err e) × (out ≡ (err e, unchanged))))))
          ⊎ ((raw : Settings) × ((cfg : Settings) × ((report : ReloadReport) × ((file ≡ ok raw)
                    × ((validate raw ≡ ok cfg) × ((out.0 ≡ ok report) × IsApplied cfg out.1)))))))

  sync_pools-cfg : (m' : Manager) → (sync_pools open_pool m').0.cfg ≡ m'.cfg
  unfolding sync_pools
  sync_pools-cfg m' = refl

  apply_config-IsApplied :
      (cfg : Settings) → IsSound cfg → IsApplied cfg (apply_config same open_pool old_cfg cfg m).1
  unfolding apply_config
  apply_config-IsApplied cfg sound =
      let m' : Manager = record m { cfg = live cfg } in
      (refl, (sync_pools-cfg m', (sound, λ id. sync_pools-lookup open_pool m' id sound.distinct)))

  -- A file that cannot be read or does not pass validation is answered with its error and changes
  -- nothing. Any other file is answered with a report, its validated settings are sound and in force,
  -- and each database has the pool that it has after `syncPools` under them.
  pub reload-IsReloaded :
      (file : Result ConfigError Settings) → IsReloaded file (reload same open_pool file old_cfg m)
  unfolding load_config reload
  reload-IsReloaded (err e) = inl (e, (refl, refl))
  reload-IsReloaded (ok raw) = elim (Result-cases (validate raw)) [
    | inr (e, v) ↦ inr (inl (raw, (e, (refl, (v, rw (reload, v) refl)))))
    | inl (cfg, v) ↦
        let (report, after) = apply_config same open_pool old_cfg cfg m in
        let applied = apply_config-IsApplied cfg (validate-IsSound raw cfg v).0 in
        let out : reload same open_pool (ok raw) old_cfg m ≡ (ok report, after) =
          rw (reload, v) refl in
        let in_force = subst (λ x. IsApplied cfg x.1) (sym out) applied in
        inr (inr (raw, (cfg, (report, (refl, (v, (ap (λ x. x.0) out, in_force)))))))
  ]
