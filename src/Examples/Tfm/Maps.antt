-- ===== src/Examples/Tfm/Maps.antt =====
-- The SAU and the DMA's protection unit on the address map of the example.
use rp2350_tz_tee.Prelude.{◌≡◌, ◌≢◌, ◌↔◌, true, refl}
use rp2350_tz_tee.Hw.Sau.{secure, attribution}
use rp2350_tz_tee.Hw.DmaMpu.{dma_open}
use rp2350_tz_tee.Tfm.Sau.{sau_and_idau_cfg}
use rp2350_tz_tee.Tfm.Sau.Attribution.{intended, attribution-sau_and_idau_cfg}
use rp2350_tz_tee.Tfm.Dma.{dma_security_config}
use rp2350_tz_tee.Tfm.Dma.Mirror.{IsNsPartition, dma_security_config_mirrors}
use rp2350_tz_tee.Examples.Tfm.{
  regions, regions-IsRegions, sau_api, sau_api-IsSauApi, dma_api, dma_api-IsDmaApi, sau_reset,
  dma_reset,
}

attribution-sau_and_idau_cfg_example :
    attribution (sau_and_idau_cfg sau_api regions sau_reset) 0x1007_F010
    ≡ intended regions 0x1007_F010
attribution-sau_and_idau_cfg_example =
    attribution-sau_and_idau_cfg sau_api regions sau_reset 0x1007_F010 sau_api-IsSauApi
      regions-IsRegions (refl, refl, refl, refl)

dma_security_config_mirrors_example :
    (dma_open (dma_security_config dma_api regions dma_reset).1.mpu 0x1008_0000 ≡ true) ↔ (
      (attribution (sau_and_idau_cfg sau_api regions sau_reset) 0x1008_0000 ≢ secure)
      × ¬ IsNsPartition regions 0x1008_0000)
dma_security_config_mirrors_example =
    dma_security_config_mirrors sau_api dma_api regions sau_reset dma_reset 0x1008_0000
      sau_api-IsSauApi dma_api-IsDmaApi regions-IsRegions (refl, refl, refl, refl)
