-- ===== src/Tests/Pmm.antt =====
-- Two pages free at 0x10000 and ten at 0x20000.
use obos_old.Prelude.{refl, true, false, [], ◌∷◌, arith, ◌==◌, if◌then◌else◌}
use obos_old.Pmm.{Pmm}
use obos_old.Pmm.Allocation.{Ready}

abbrev memory : Pmm
memory = record {
  list = record {
    links = λ p.
        if p == 0x10000
        then record { next = 0x20000; prev = 0 }
        else record { next = 0; prev = 0x10000 };
    header = record { head = 0x10000; tail = 0x20000; size = 2 };
  };
  n_pages = λ p. if p == 0x10000 then 2 else 10;
  locked = false;
  interrupts = true;
  hhdm_base = 0;
  hhdm_end = 0;
}

memory-Ready : Ready memory (0x10000 ∷ 0x20000 ∷ [])
memory-Ready = record {
  unlocked = refl;
  nodes = record { nodes = ground arith; count = refl; fits = omega arith };
  some_node = omega arith;
}
