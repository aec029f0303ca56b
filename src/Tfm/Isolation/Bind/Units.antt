-- ===== src/Tfm/Isolation/Bind/Units.antt =====
-- Binding leaves the SAU and the DMA's unit alone.
use rp2350_tz_tee.Prelude.{ℕ, Bool, List, [], ◌∷◌, Option, ◌≡◌, arith, refl}
use rp2350_tz_tee.Tfm.Isolation.{Spe, Platform}
use rp2350_tz_tee.Tfm.Isolation.Bind.{
  Mmio, Asset, LoadInfo, set_access, map_device, bind_asset, bind_assets, tfm_hal_bind_boundary,
}

module _ (p : Platform) (mmio : Mmio) where
  open p use {bus}

  -- The same attribution, and the same unit of the DMA.
  pub record SameUnits (s t : Spe bus) : Type 0 where
    pub same_sau : t.sau ≡ s.sau
    pub same_dma : t.dma ≡ s.dma

  bind_asset-SameUnits :
      (privileged : Bool) (asset : Asset) (s : Spe bus)
      → SameUnits s (bind_asset p mmio privileged asset s).1
  unfolding bind_asset map_device set_access
  bind_asset-SameUnits privileged asset s = ground arith

  bind_assets-SameUnits :
      (privileged : Bool) (assets : List Asset) (s : Spe bus)
      → SameUnits s (bind_assets p mmio privileged assets s).1
  unfolding bind_assets
  bind_assets-SameUnits privileged [] s = record { same_sau = refl; same_dma = refl }
  bind_assets-SameUnits privileged (asset ∷ assets) s =
      let s' = (bind_asset p mmio privileged asset s).1 in
      ground
        (arith, bind_asset-SameUnits privileged asset s, bind_assets-SameUnits privileged assets s')

  pub tfm_hal_bind_boundary-SameUnits :
      (ld : Option LoadInfo) (boundary : Option ℕ) (s : Spe bus)
      → SameUnits s (tfm_hal_bind_boundary p mmio ld boundary s).2
  unfolding tfm_hal_bind_boundary
  tfm_hal_bind_boundary-SameUnits ld boundary s = grind (arith, bind_assets-SameUnits)
