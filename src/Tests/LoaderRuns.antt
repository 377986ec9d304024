-- ===== src/Tests/LoaderRuns.antt =====
-- The loader with a disk that gets ready and serves it.
use bootloader_kernel_in_nas.Base.{
  ℕ, ◌+◌, ◌*◌, ◌≡◌, refl, arith, true, some, [], ltb, if◌then◌else◌,
}
use bootloader_kernel_in_nas.AtaPoll.{ata_init}
use bootloader_kernel_in_nas.AtaPoll.Wait.{for_idle, verdict}
use bootloader_kernel_in_nas.AtaPoll.Ready.{GetsReady, ready-ata_init}
use bootloader_kernel_in_nas.Idt
use bootloader_kernel_in_nas.Idt.Gates.{vector}
use bootloader_kernel_in_nas.Loader.{Loader, zero_gate}

-- Ready at first, and with data from the 16th answer on.
abbrev answers : ℕ → ℕ
answers n = if ltb n 15 then 0x50 else 0x58

abbrev start : Loader
start = record {
  idt = record { gates = λ v. zero_gate; limit = 0 };
  io = record {
    answers = answers;
    words = λ n. n;
    reads = 0;
    words_read = 0;
    mem = λ a. 3;
    trace = [];
  };
}

first_status : verdict for_idle 0x50 ≡ some true
unfolding verdict
first_status = refl

gets_ready : GetsReady 0 0 0 answers
gets_ready = record {
  within = omega arith;
  not_yet = λ j l. absurd (omega arith);
  ready = first_status;
  again = (omega arith, (λ j l. absurd (omega arith)), first_status);
  fine = (refl, refl, refl);
}

-- The handlers, 64 bytes each, from 0x20100 on.
abbrev placed : Idt.Isr → ℕ
placed h = 0x2_0100 + 64 * vector h

ready-ata_init_example : (ata_init start.io).0 ≡ true
ready-ata_init_example = ready-ata_init 0 0 start.io gets_ready
