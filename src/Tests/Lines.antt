-- ===== src/Tests/Lines.antt =====
-- Line lists on a heap, and addresses in replies.
use libncftp.Base.{ℕ, zero, suc, [], ◌∷◌, ◌++◌, none, some, codes, ◌≡◌, refl, arith}
use libncftp.Conn.Errors.{k_no_err}
use libncftp.Reply.Frame.{Reply, IsReply}
use libncftp.Command.Exchange.{after_exchange}
use libncftp.Command.Framing.{Sendable}
use libncftp.Command.{strip_eol}
use libncftp.LineList.{Heap, LineList, remove_line, append_line}
use libncftp.LineList.Links.{Lines, Holds, head_or}
use libncftp.LineList.Laws.{remove_line_lem, append_line_lem}
use libncftp.Port.{Sockaddr, send_passive}
use libncftp.Port.Laws.{IsAddress, send_passive-numbers}
use libncftp.Tests.{conn_giving, one_line, answers}

-- Three lines, at the addresses 0, 1 and 2.
abbrev three : Heap
three zero = some (record { prev = none; next = some 1; line = codes "a" })
three (suc zero) = some (record { prev = some 0; next = some 2; line = codes "b" })
three (suc (suc zero)) = some (record { prev = some 1; next = none; line = codes "c" })
three (suc (suc (suc n))) = none

abbrev three_list : LineList
three_list = record { first = some 0; last = some 2; n_lines = 3 }

abbrev three_lines : Lines
three_lines = (0, codes "a") ∷ (1, codes "b") ∷ (2, codes "c") ∷ []

three-Holds : Holds three three_list three_lines
three-Holds = record {
  links = (refl, (refl, (refl, tt)));
  starts = refl;
  ends = refl;
  counted = refl;
  apart = ((refl, (refl, tt)), ((refl, tt), (tt, tt)));
}

remove_line_lem_example :
    (h' : Heap) × (list' : LineList) × (remove_line three three_list 1
      ≡ some (head_or none ((2, codes "c") ∷ []), h', list'))
    × Holds h' list' ((0, codes "a") ∷ (2, codes "c") ∷ [])
    × (h' 1 ≡ none)
remove_line_lem_example =
    remove_line_lem three three_list ((0, codes "a") ∷ []) ((2, codes "c") ∷ []) 1 (codes "b")
      three-Holds

append_line_lem_example :
    (h' : Heap) × (list' : LineList) × (append_line three three_list 3 (codes "d")
      ≡ some (h', list'))
    × Holds h' list' (three_lines ++ ((3, codes "d") ∷ []))
append_line_lem_example =
    append_line_lem three three_list three_lines 3 (codes "d") three-Holds
      (refl, (refl, (refl, tt)))

abbrev somewhere : Sockaddr
somewhere = record { addr0 = 129; addr1 = 93; addr2 = 33; addr3 = 1; port0 = 10; port1 = 187 }

somewhere-IsAddress : IsAddress somewhere
somewhere-IsAddress = record {
  addr0_small = ground arith;
  addr1_small = ground arith;
  addr2_small = ground arith;
  addr3_small = ground arith;
  port0_small = ground arith;
  port1_small = ground arith;
}

abbrev passive : Reply
passive = one_line b'2' b'2' b'7' (codes "Mode (129,93,33,1,10,187)")

passive-IsReply : IsReply passive
passive-IsReply = record {
  digit1 = ground arith;
  digit2 = ground arith;
  digit3 = ground arith;
  first_text = ground arith;
  more_text = tt;
}

pasv-Sendable : Sendable (codes "PASV")
unfolding strip_eol
pasv-Sendable = record { fits = ground arith; no_eol = refl }

send_passive-numbers_example :
    (n : ℕ) × (send_passive (conn_giving passive)
      ≡ some (
        (k_no_err, some (somewhere, 0)),
        after_exchange (conn_giving passive) (codes "PASV") passive n,
      ))
send_passive-numbers_example =
    send_passive-numbers somewhere (codes "Mode (") (codes ")") passive (conn_giving passive)
      somewhere-IsAddress (ground arith) refl refl refl
      (answers (codes "PASV") passive passive-IsReply (ground arith) pasv-Sendable)
