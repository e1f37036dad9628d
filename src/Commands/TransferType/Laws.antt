-- ===== src/Commands/TransferType/Laws.antt =====
-- FTPSetTransferType against every server.
use libncftp.Base.{ℕ, [], ◌∷◌, ◌++◌, Option, none, some, codes, ℤ, pos, ◌≡◌, ◌≢◌, ◌⊎◌}
use libncftp.Conn.{Conn}
use libncftp.Conn.Errors.{k_no_err, k_err_bad_transfer_type, k_err_type_failed}
use libncftp.Command.{ftp_cmd}
use libncftp.Commands.TransferType.{canonical_type}

-- What the connection knows of the transfer type after FTPSetTransferType. It asks the server only for
-- another type than the stored one, and what it then knows is decided by the result of the one command
-- TYPE with the type that the requested letter stands for.
abbrev pub TypeSet : ℕ → Conn → Option (ℤ × Conn) → Type 0
TypeSet type c none = ⊥
TypeSet type c (some (result, d)) =
    ((result ≡ k_no_err) × ((c.cur_transfer_type ≡ type) × (d ≡ c)))
    ⊎ ((result ≡ k_err_bad_transfer_type)
        × ((canonical_type type ≡ none) × (d ≡ record c { err_no = k_err_bad_transfer_type })))
    ⊎ ((t : ℕ) × (reply : ℤ) × (e : Conn) × ((canonical_type type ≡ some t)
          × (ftp_cmd (codes "TYPE " ++ (t ∷ [])) c ≡ some (reply, e))
          × (((reply ≡ pos 2) × (result ≡ k_no_err) × (d ≡ record e { cur_transfer_type = t }))
              ⊎ ((reply ≢ pos 2)
                  × (result ≡ k_err_type_failed)
                  × (d ≡ record e { err_no = k_err_type_failed })
                  × (d.cur_transfer_type ≡ c.cur_transfer_type)))))
