-- ===== src/AtaIrq/Typed.antt =====
-- kernel/ata_driver_irq.h: the fields of `g_ata_ctx` in the ranges of their C types.
use bootloader_kernel_in_nas.Base.{ℕ, ◌^◌, ◌<◌, List, [], ◌∷◌, arith}
use bootloader_kernel_in_nas.AtaIrq.{AtaContext, g_ata_ctx}

-- Every element is a uint16_t.
unfoldable pub AreWords : List ℕ → Type 0
AreWords [] = Unit
AreWords (w ∷ ws) = (w < 2 ^ 16) × AreWords ws

pub record IsTyped (c : AtaContext) : Type 0 where
  pub irq-lt : c.irq < 2 ^ 8
  pub multiple-lt : c.multiple < 2 ^ 8
  pub status-lt : c.last_status < 2 ^ 8
  pub delay-lt : c.delay_400 < 2 ^ 8
  pub lba-lt : c.lba < 2 ^ 64
  pub sectors-lt : c.sectors_left < 2 ^ 32
  pub batch-lt : c.batch_left < 2 ^ 32
  pub ptr-lt : c.ptr < 2 ^ 64
  pub words : AreWords c.identify

pub g_ata_ctx-IsTyped : IsTyped g_ata_ctx
unfolding AreWords
g_ata_ctx-IsTyped = ground arith
