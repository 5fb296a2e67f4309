-- ===== src/Inode/Counters.antt =====
-- mount_store.rs: the counter of open file handles.
use cultivate.Common.{◌-◌, ◌%◌, nat_eq, false, ◌+◌, ◌^◌, ◌<◌, ◌≡◌, arith}
use cultivate.Inode.{InodeAttributes, inc_file_handle, dec_file_handle}

-- Unless the counter is at its end, counting a handle up and then down gives back the attributes.
dec-inc_file_handle :
    (a : InodeAttributes)
    → a.open_file_handles + 1 < 2 ^ 64
    → dec_file_handle (inc_file_handle a) ≡ a
unfolding inc_file_handle dec_file_handle
dec-inc_file_handle a h =
    let counter = (a.open_file_handles + 1) % 2 ^ 64 in
    let above : nat_eq counter 0 ≡ false = ground arith in
    let back : counter - 1 ≡ a.open_file_handles = omega arith in
    rw above (λ i. record a { open_file_handles = back i })
