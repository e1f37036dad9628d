-- ===== src/Commands/Probe/Laws.antt =====
-- The text of OPTS MLST, whose array has 128 bytes.
use libncftp.Base.{
  ℕ, ◌+◌, ◌≤◌, Bool, true, false, [], ◌++◌, Bytes, codes, if◌then◌else◌, length, length-append,
  arith,
}
use libncftp.Commands.Probe.{has_bit, mls_option, mls_options}

mls_option-length : (f bit : ℕ) (text : Bytes) → length (mls_option f bit text) ≤ length text
mls_option-length f bit text = go (has_bit bit f)
  where
    go : (b : Bool) → length (if b then text else []) ≤ length text
    go true = omega arith
    go false = omega arith

append-length : (a b : Bytes) (m n : ℕ) → length a ≤ m → length b ≤ n → length (a ++ b) ≤ m + n
append-length a b m n ha hb = omega (arith, length-append a b)

-- Whatever features the server has, the options that FTPRequestMlsOptions puts together take at most
-- 72 bytes, so none of its STRNCATs into the array of 128 cuts one.
pub mls_options-length : (features : ℕ) → length (mls_options features) ≤ 72
unfolding mls_options
mls_options-length f =
    (append-length _ _ 63 9
      (append-length _ _ 52 11
        (append-length _ _ 43 9
          (append-length _ _ 32 11
            (append-length _ _ 27 5
              (append-length _ _ 17 10
                (append-length _ _ 10 7
                  (append-length _ _ 5 5 (mls_option-length f 1 (codes "type;"))
                    (mls_option-length f 2 (codes "size;")))
                  (mls_option-length f 4 (codes "modify;")))
                (mls_option-length f 8 (codes "UNIX.mode;")))
              (mls_option-length f 64 (codes "perm;")))
            (mls_option-length f 16 (codes "UNIX.owner;")))
          (mls_option-length f 128 (codes "UNIX.uid;")))
        (mls_option-length f 32 (codes "UNIX.group;")))
      (mls_option-length f 256 (codes "UNIX.gid;")))
