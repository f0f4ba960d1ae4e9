-- ===== src/Filedescriptor.antt =====
-- src/filedescriptor.c: the slab allocator of file descriptors. The slots of all slabs stand in one
-- memory, slot `i` of slab `j` at `j * slots_per_slab + i`, and a pointer to a slot is that number.
-- Whether `malloc` returns memory is an argument. The numbers of descriptors stay far below 2^31:
-- that many slots would fill 48 GB.
pub mod Chain
pub mod Live
pub mod Allocate
pub mod Free
pub mod Deinit
use filesys.Prelude.{
  ℕ, zero, suc, ◌+◌, ◌-◌, ◌*◌, ◌/◌, ◌%◌, Bool, true, false, Option, none, some, ltb, ◌==◌,
  if◌then◌else◌,
}
use filesys.Outcome.{Outcome, done, failed, aborted}

-- `struct sfs_fd`; `none` is a field that nothing has been assigned to.
pub record SfsFd : Type 0 where
  pub fd : ℕ
  pub inumber : Option ℕ
  pub flags : Option ℕ

-- `union slot`: a `struct node` of the free list, or a `struct sfs_fd`.
pub data Slot : Type 0 where
  free : (fd : ℕ) → (next : Option ℕ) → Slot
  used : SfsFd → Slot

-- `fldsiz(slab, data) / sizeof(union slot)`
unfoldable pub slots_per_slab : ℕ
slots_per_slab = 4088

-- `struct pool`
pub record Pool : Type 0 where
  pub slabs : ℕ
  pub slot : ℕ → Slot
  pub freelist : Option ℕ

-- The number of slots.
abbrev pub total : Pool → ℕ
total p = p.slabs * slots_per_slab

-- Memory with a new slab of `n` slots from slot `start` on, linked in order.
unfoldable pub init_slab : (start n : ℕ) → (ℕ → Slot) → ℕ → Slot
init_slab start n slot k =
    if ltb k start
    then slot k
    else (if ltb k (start + n)
        then free k (if ltb (k + 1) (start + n) then some (k + 1) else none)
        else slot k)

-- `sfs_filedescriptor_pool_init`, with the results of its two calls of `malloc`, over uninitialised
-- memory.
unfoldable pub pool_init : (pool_memory slab_memory : Bool) → (ℕ → Slot) → Option Pool
pool_init false slab_memory slot = none
pool_init true false slot = none
pool_init true true slot =
    some (record { slabs = 1; slot = init_slab 0 slots_per_slab slot; freelist = some 0 })

unfoldable pub set_slot : ℕ → Slot → (ℕ → Slot) → ℕ → Slot
set_slot a s slot k = if k == a then s else slot k

-- Take the node at `a` off the free list and make it a descriptor (`init_slot_as_sfs_fd`). A list
-- that leads to a slot in use is followed through a wild pointer.
unfoldable pub take_node : ℕ → Slot → Pool → Outcome Pool ℕ
take_node a (free fd next) p = done a (record p {
  slot = set_slot a (used (record { fd = fd; inumber = none; flags = none })) p.slot;
  freelist = next;
})
take_node a (used s) p = aborted

-- `num_fds_already`: the slots of the first slab, and of the `n` slabs behind it.
unfoldable pub count_fds : (n already : ℕ) → ℕ
count_fds zero already = already
count_fds (suc n) already = count_fds n (already + slots_per_slab)

-- The pool with one more slab.
unfoldable pub grow : Pool → Pool
grow p =
    let already = count_fds (p.slabs - 1) slots_per_slab in
    record p {
      slabs = p.slabs + 1;
      slot = init_slab already slots_per_slab p.slot;
      freelist = some already;
    }

-- The branch of `sfs_filedescriptor_allocate` with a node on the free list.
unfoldable pub allocate_free : Option ℕ → Pool → Outcome Pool ℕ
allocate_free (some a) p = take_node a (p.slot a) p
allocate_free none p = failed p

unfoldable pub allocate_from : (slab_memory : Bool) → Option ℕ → Pool → Outcome Pool ℕ
allocate_from slab_memory (some a) p = allocate_free (some a) p
allocate_from false none p = failed p
allocate_from true none p = let p' = grow p in allocate_free p'.freelist p'

-- `sfs_filedescriptor_allocate`: with an empty free list it adds a slab and calls itself.
unfoldable pub allocate : (slab_memory : Bool) → Pool → Outcome Pool ℕ
unfolding allocate_from
allocate slab_memory p = allocate_from slab_memory p.freelist p

-- The walk of `sfs_filedescriptor_get_from_fd` over the slabs that are left: whether it ends on one.
unfoldable pub reaches_slab : (slab_index slabs : ℕ) → Bool
reaches_slab zero zero = false
reaches_slab zero (suc slabs) = true
reaches_slab (suc i) zero = false
reaches_slab (suc i) (suc slabs) = reaches_slab i slabs

-- `sfs_filedescriptor_get_from_fd`: the pointer, or NULL.
unfoldable pub get_from_fd : ℕ → Pool → Option ℕ
get_from_fd fd p =
    let slab_index = fd / slots_per_slab in
    let slot_index = fd % slots_per_slab in
    if reaches_slab slab_index p.slabs
    then some (slab_index * slots_per_slab + slot_index)
    else none

-- The `fd` that both members of the union begin with.
unfoldable pub fd_of : Slot → ℕ
fd_of (free fd next) = fd
fd_of (used s) = s.fd

-- `sfs_filedescriptor_free`
unfoldable pub free_fd : ℕ → Pool → Pool
free_fd a p = record p {
  slot = set_slot a (free (fd_of (p.slot a)) p.freelist) p.slot;
  freelist = some a;
}
