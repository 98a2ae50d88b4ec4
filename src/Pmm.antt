-- ===== src/Pmm.antt =====
-- The physical memory manager:
-- oboskrnl/arch/x86_64/memory_manager/physical/allocatePhys.cpp. A memory node stands at the start of
-- its free pages, so that its address is a physical address; 0 is nullptr. A panic and the wait for a
-- lock that nobody gives back do not return.
pub mod Allocation
use obos_old.Prelude.{
  ℕ, zero, suc, ◌+◌, ◌-◌, ◌*◌, ◌/◌, ◌%◌, Bool, true, false, not, ◌&&◌, ◌||◌, List, [], ◌∷◌, ◌==◌,
  ltb, leb, if◌then◌else◌, add64, mul64,
}
use obos_old.Outcome.{Outcome, done, fault, hang, ◌>>=◌}
use obos_old.Links.{Links, ListState, write, attach, push_back, unlink}

pub record Pmm : Type 0 where
  pub list : ListState
  pub n_pages : ℕ → ℕ
  pub locked : Bool
  pub interrupts : Bool
  pub hhdm_base : ℕ
  pub hhdm_end : ℕ

-- An entry of the boot loader's memory map.
pub record MapEntry : Type 0 where
  pub base : ℕ
  pub length : ℕ
  pub usable : Bool

-- Where the node of an entry is put: `base & 0xfff` is written as the remainder.
unfoldable pub entry_base : ℕ → ℕ
entry_base base =
    let b = if ltb base 0x1000 then 0x1000 else base in
    if b % 0x1000 == 0 then b else add64 b 0xfff % 0x1000

unfoldable pub add_entries : List MapEntry → Pmm → Pmm
add_entries [] s = s
add_entries (e ∷ es) s =
    let p = entry_base e.base in
    add_entries es (
      if not e.usable then s else record s {
        list = push_back p s.list;
        n_pages = λ q. if q == p then e.length / 0x1000 else s.n_pages q;
      })

last_end : List MapEntry → Outcome ℕ
last_end [] = fault
last_end (e ∷ []) = done (add64 (add64 e.base (e.length / 4096 * 4096)) 4096)
last_end (e ∷ f ∷ es) = last_end (f ∷ es)

-- InitializePhysicalMemoryManager
pub initialize_pmm : (offset : ℕ) → List MapEntry → Pmm → Outcome Pmm
unfolding last_end
initialize_pmm offset entries s = last_end entries >>= λ e.
    done (record (add_entries entries (record s { locked = false; hhdm_base = offset })) {
      hhdm_end = add64 offset e;
    })

-- The first node from `p` on that has enough pages; 0 if there is none.
unfoldable pub find_pages : ℕ → Pmm → ℕ → ℕ → Outcome ℕ
find_pages zero s n p = hang
find_pages (suc fuel) s n p =
    let next = (s.list.links p).next in
    elim (ltb (s.n_pages p) n) [
      | false ↦ done p
      | true ↦ elim (next == 0) [ true ↦ done 0 | false ↦ find_pages fuel s n next ]
    ]

-- A node without pages leaves the list; the count of the nodes stays.
unfoldable pub remove_empty : ℕ → Pmm → Pmm
remove_empty p s =
    let left = unlink p s.list in
    record s {
      list = record {
        links = write left.links p (record { next = 0; prev = 0 });
        header = record (left.header) { size = s.list.header.size };
      };
    }

-- The pages come from the end of the node's; `ret` was set to the head of the list.
unfoldable pub take_pages : ℕ → Pmm → ℕ → ℕ × Pmm
take_pages n s p =
    let rest = s.n_pages p - n in
    let taken : Pmm = record s { n_pages = λ q. if q == p then rest else s.n_pages q } in
    (add64 s.list.header.head (mul64 rest 4096), if rest == 0 then remove_empty p taken else taken)

-- Where no node has enough pages, the lock is kept and interrupts stay off.
unfoldable pub allocate_physical_page : ℕ → ℕ → Pmm → Outcome (ℕ × Pmm)
allocate_physical_page fuel n s =
    if (s.list.header.size == 0) || s.locked
    then hang
    else if s.list.header.head == 0
    then fault
    else find_pages fuel s n s.list.header.head >>= λ p.
        done
          (if p == 0 then (0, record s { locked = true; interrupts = false }) else take_pages n s p)

unfoldable pub free_physical_page : ℕ → ℕ → Pmm → Outcome (Bool × Pmm)
free_physical_page p n s =
    if s.locked
    then hang
    else done (
      true,
      record s { list = attach p s.list; n_pages = λ q. if q == p then n else s.n_pages q },
    )

unfoldable pub page_in_hhdm : Pmm → ℕ → Bool
page_in_hhdm s a = leb s.hhdm_base a && ltb a s.hhdm_end
