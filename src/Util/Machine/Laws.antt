-- ===== src/Util/Machine/Laws.antt =====
-- The time since the boot.
use sflow.Common.{
  ℕ, zero, suc, ◌+◌, ◌-◌, ◌^◌, ◌<◌, ◌≤◌, ◌≡◌, ◌≢◌, refl, false, Bool-cases, inl, inr, List, ◌∷◌,
  ◌++◌, Option, none, some, arith, replicate, ok, ◌==◌,
}
use sflow.Util.Machine.{UtmpEntry, boot_time, other_entry, stops_at, since, scan_utmp, up_time_sec}

-- Records that are not of the boot change nothing.
scan_utmp-others :
    (n m now start : ℕ) (ret : Option ℕ)
    → scan_utmp n (replicate m other_entry) now start ret ≡ (start, ret)
unfolding scan_utmp
scan_utmp-others zero m now start ret = refl
scan_utmp-others (suc n) zero now start ret = refl
scan_utmp-others (suc n) (suc m) now start ret = scan_utmp-others n m now start ret

scan_utmp-boot :
    (k n m t now start : ℕ) (ret : Option ℕ)
    → k < n
    → scan_utmp n (replicate k other_entry ++ boot_time t ∷ replicate m other_entry) now start ret
      ≡ (t, some (since now t))
unfolding scan_utmp
scan_utmp-boot k zero m t now start ret h = absurd (omega arith)
scan_utmp-boot zero (suc n) m t now start ret h = elim (Bool-cases (stops_at now t)) [
  | inl s ↦ rw (s, scan_utmp) refl
  | inr s ↦ rw (s, scan_utmp) (scan_utmp-others n m now t (some (since now t)))
]
scan_utmp-boot (suc k) (suc n) m t now start ret h =
    scan_utmp-boot k n m t now start ret (omega arith)

-- For a file whose only record of the boot is at a time that is not 0 and not after now, and a
-- later time at which the result still has 32 bits, the first call of get_up_time_sec gives the
-- seconds since the boot and 30 more, and remembers the time of the boot; a later call then gives
-- the same for its own time without reading the file.
pub up_time_sec_lem :
    (k n m t now now' later : ℕ) (us : List UtmpEntry)
    → k < n
    → t ≢ 0
    → t ≤ now
    → now ≤ now'
    → now' - t + 30 < 2 ^ 32
    → (up_time_sec n (replicate k other_entry ++ boot_time t ∷ replicate m other_entry) now 0
        ≡ ok (t, now - t + 30))
      × (up_time_sec later us now' t ≡ ok (t, now' - t + 30))
unfolding up_time_sec
up_time_sec_lem k n m t now now' later us h there past order small =
    let not_zero : (t == 0) ≡ false = ground (arith, there) in
    let first : since now t ≡ now - t + 30 = omega arith in
    let second : since now' t ≡ now' - t + 30 = omega arith in
    (rw (scan_utmp-boot k n m t now 0 none h, first) refl, rw (not_zero, second) refl)
