-- ===== src/Tests/Dns.antt =====
-- Runs of the DNS record handlers.
use nstl.Prelude.{ℕ, ◌≤◌, ◌≡◌, refl, ◌↔◌, Option, some, List, [], ◌∷◌, arith, codes}
use nstl.Net.Svcb.{port, alpn_list, resolve_params, param_loop, param_of}
use nstl.Net.Svcb.Wire.{Entry, known, unknown, put_entries, known_of}
use nstl.Net.Svcb.RoundTrip.{resolve_params-put_entries}
use nstl.Net.Records.{RawRecord, Expand, mx_item, word_at}
use nstl.Net.Records.Names.{mx_item_whole}

abbrev entries : List Entry
entries = known (port 443) ∷ unknown 9 (1 ∷ []) ∷ known (alpn_list (codes "h2" ∷ [])) ∷ []

reads :
    resolve_params (0 ∷ 3 ∷ 0 ∷ 2 ∷ 1 ∷ 187 ∷ 0 ∷ 9 ∷ 0 ∷ 1 ∷ 1 ∷ 0 ∷ 1 ∷ 0 ∷ 3 ∷ 2 ∷ codes "h2")
    ≡ port 443 ∷ alpn_list (codes "h2" ∷ []) ∷ []
unfolding resolve_params param_loop param_of
reads = refl

resolve_params-put_entries_example : resolve_params (put_entries entries) ≡ known_of entries
resolve_params-put_entries_example = resolve_params-put_entries entries (omega arith)

-- A pointer to a name elsewhere in the message takes two bytes.
abbrev compressed : Expand
compressed s = some (2, codes "mail.example.org")

abbrev mx_record : RawRecord
mx_record = record { rr_class = 1; rr_type = 15; rdata = 0 ∷ 10 ∷ 0xC0 ∷ 12 ∷ [] }

cut_off : mx_item compressed mx_record ≡ some (record { address = codes "ma"; priority = 10 })
unfolding mx_item word_at
cut_off = refl

mx_item_whole_example :
    (mx_item compressed mx_record
      ≡ some (record { address = codes "mail.example.org"; priority = word_at 0 mx_record.rdata }))
    ↔ (16 ≤ 2)
mx_item_whole_example =
    mx_item_whole compressed mx_record 2 (codes "mail.example.org") refl refl (omega arith) refl

abbrev always : ℕ → Option ℕ
always k = some 5

always_small : (i : ℕ) (n : ℕ) → always i ≡ some n → n ≤ 5
always_small i n e = ground arith
