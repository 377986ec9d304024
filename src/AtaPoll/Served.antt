-- ===== src/AtaPoll/Served.antt =====
-- A transfer that the disk serves.
use bootloader_kernel_in_nas.Base.{
  ℕ, zero, suc, ◌+◌, ◌<◌, Bool, true, none, some, if◌then◌else◌, ◌≡◌, refl, ap, ap₂, ◌∙◌, arith,
}
use bootloader_kernel_in_nas.Page.{u64}
use bootloader_kernel_in_nas.Port.{Machine, u8, inb, outb, insw_mem, outsw}
use bootloader_kernel_in_nas.AtaPoll.{
  Transfer, read_28, write_28, read_48, write_48, next_lba, ata_status_get, ata_lba28_set,
  ata_lba48_set, issue, move_sector, poll_sector, poll_loop,
}
use bootloader_kernel_in_nas.AtaPoll.Wait.{
  Wait, for_idle, for_drq, wait, limit, verdict, polled, status_at, wait_first,
}
use bootloader_kernel_in_nas.AtaPoll.Sector.{is_28}

-- The `k`-th status from `pos` on is the first with a verdict, within the timeout, and it is good.
abbrev pub IsSeen : (w : Wait) (pos : ℕ) (answers : ℕ → ℕ) (k : ℕ) → Type 0
IsSeen w pos answers k =
    (k < limit w)
    × ((j : ℕ) → j < k → verdict w (u8 (answers (pos + j))) ≡ none)
    × (verdict w (u8 (answers (pos + k))) ≡ some true)

-- How often the delays of a command read a port.
abbrev pub delay_reads : Transfer → ℕ
delay_reads t = if is_28 t then 8 else 12

-- The disk's answers from `pos` on serve `n` sectors: it is ready before each and after the last,
-- and asks for the data of each.
unfoldable pub Serves : Transfer → (n pos : ℕ) → (ℕ → ℕ) → Type 0
Serves t zero pos answers = (k : ℕ) × IsSeen for_idle pos answers k
Serves t (suc n) pos answers =
    (k : ℕ) × (k' : ℕ) × IsSeen for_idle pos answers k
    × IsSeen for_drq (pos + (suc k + delay_reads t)) answers k'
    × Serves t n (pos + (suc k + delay_reads t) + suc k') answers

-- `m'` is at `pos` of the same answers.
pub record IsAt (m' : Machine) (pos : ℕ) (answers : ℕ → ℕ) : Type 0 where
  pub reads : m'.reads ≡ pos
  pub same : m'.answers ≡ answers

pub polled-IsAt :
    (k : ℕ) (m : Machine) {pos : ℕ} {answers : ℕ → ℕ}
    → IsAt m pos answers
    → IsAt (polled k m) (pos + k) answers
unfolding polled ata_status_get inb
polled-IsAt zero m {pos} {answers} a = record { reads = omega (arith, a.reads); same = a.same }
polled-IsAt (suc k) m {pos} {answers} a =
    let rest =
      polled-IsAt k (ata_status_get m) {pos = pos + 1} {answers = answers}
        (record { reads = omega (arith, a.reads); same = a.same }) in
    record { reads = omega (arith, rest.reads); same = rest.same }

issue-IsAt :
    (t : Transfer) (lba : ℕ) (m : Machine) {pos : ℕ} {answers : ℕ → ℕ}
    → IsAt m pos answers
    → IsAt (issue t lba m) (pos + delay_reads t) answers
unfolding issue ata_lba28_set ata_lba48_set inb outb
issue-IsAt read_28 lba m a = record { reads = omega (arith, a.reads); same = a.same }
issue-IsAt write_28 lba m a = record { reads = omega (arith, a.reads); same = a.same }
issue-IsAt read_48 lba m a = record { reads = omega (arith, a.reads); same = a.same }
issue-IsAt write_48 lba m a = record { reads = omega (arith, a.reads); same = a.same }

move_sector-IsAt :
    (t : Transfer) (ptr : ℕ) (m : Machine) {pos : ℕ} {answers : ℕ → ℕ}
    → IsAt m pos answers
    → IsAt (move_sector t ptr m) pos answers
unfolding move_sector insw_mem outsw
move_sector-IsAt read_28 ptr m a = record { reads = a.reads; same = a.same }
move_sector-IsAt write_28 ptr m a = record { reads = a.reads; same = a.same }
move_sector-IsAt read_48 ptr m a = record { reads = a.reads; same = a.same }
move_sector-IsAt write_48 ptr m a = record { reads = a.reads; same = a.same }

pub wait_seen :
    (w : Wait) (m : Machine) (pos : ℕ) (answers : ℕ → ℕ) (k : ℕ)
    → IsAt m pos answers
    → IsSeen w pos answers k
    → wait w m ≡ (true, polled (suc k) m)
wait_seen w m pos answers k a (l, quiet, found) =
    let there : (j : ℕ) → status_at m j ≡ u8 (answers (pos + j)) =
      λ j. ap₂ (λ (f : ℕ → ℕ) (n : ℕ). u8 (f (n + j))) a.same a.reads in
    wait_first w k true m l (λ j lj. ap (verdict w) (there j) ∙ quiet j lj)
      (ap (verdict w) (there k) ∙ found)

poll_sector_seen :
    (t : Transfer) (lba ptr : ℕ) (m : Machine) (pos : ℕ) (answers : ℕ → ℕ) (k k' : ℕ)
    → IsAt m pos answers
    → IsSeen for_idle pos answers k
    → IsSeen for_drq (pos + (suc k + delay_reads t)) answers k'
    → (m' : Machine) × (poll_sector t lba ptr m ≡ (true, m'))
      × IsAt m' (pos + (suc k + delay_reads t) + suc k') answers
unfolding poll_sector
poll_sector_seen t lba ptr m pos answers k k' a seen seen' =
    let m1 = polled (suc k) m in
    let m2 = issue t lba m1 in
    let a1 = polled-IsAt (suc k) m a in
    let there : pos + suc k + delay_reads t ≡ pos + (suc k + delay_reads t) = omega arith in
    let a2 : IsAt m2 (pos + (suc k + delay_reads t)) answers =
      rw there at (issue-IsAt t lba m1 a1) in
    let idle = wait_seen for_idle m pos answers k a seen in
    let drq = wait_seen for_drq m2 (pos + (suc k + delay_reads t)) answers k' a2 seen' in
    (
      move_sector t ptr (polled (suc k') m2),
      rw (idle, drq) refl,
      move_sector-IsAt t ptr _ (polled-IsAt (suc k') m2 a2),
    )

poll_loop_seen :
    (t : Transfer) (n lba ptr : ℕ) (m : Machine) (pos : ℕ) (answers : ℕ → ℕ)
    → IsAt m pos answers
    → Serves t n pos answers
    → (poll_loop t n lba ptr m).0 ≡ true
unfolding poll_loop Serves
poll_loop_seen t zero lba ptr m pos answers a (k, seen) =
    ap (λ (r : Bool × Machine). r.0) (wait_seen for_idle m pos answers k a seen)
poll_loop_seen t (suc n) lba ptr m pos answers a (k, k', seen, seen', rest) =
    let (m', one, a') = poll_sector_seen t lba ptr m pos answers k k' a seen seen' in
    rw one (poll_loop_seen t n (next_lba t lba) (u64 (ptr + 512)) m' _ answers a' rest)

pub served-poll_loop :
    (t : Transfer) (n lba ptr : ℕ) (m : Machine)
    → Serves t n m.reads m.answers
    → (poll_loop t n lba ptr m).0 ≡ true
served-poll_loop t n lba ptr m s =
    poll_loop_seen t n lba ptr m m.reads m.answers (record { reads = refl; same = refl }) s
