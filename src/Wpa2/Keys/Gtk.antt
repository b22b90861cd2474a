-- ===== src/Wpa2/Keys/Gtk.antt =====
-- wpa2.rs: the search for the group key in the key data: it ends, does not panic, and finds the key.
use Prim.Native.Nat.{ℕ, zero, suc, ◌+◌, ◌<◌, ◌≤◌}
use embassy_zephyr_n_rf.Base.{
  if_both, length-drop, ◌==◌, ◌≡◌, List, Option, none, some, Outcome, arith, length, get_or,
  Bool-cases, inl, inr, dec_lt, ==_iff,
}
use embassy_zephyr_n_rf.Base.Bytes.{index_lem, slice, slice_from_lem}
use embassy_zephyr_n_rf.Base.Post.{Post, Post-bind}
use embassy_zephyr_n_rf.Wpa2.Types.{Wpa2Error}
use embassy_zephyr_n_rf.Wpa2.Keys.{
  GtkKde, take_body, take_element, take_kde, parse_gtk_body, scan_kde, search_gtk, parse_gtk_kde,
}

-- An element lies in the bytes, behind the offset.
abbrev Taken : List ℕ → ℕ → Option (ℕ × List ℕ × ℕ) → Type 0
Taken bytes offset none = Unit {0}
Taken bytes offset (some (element_id, body, next)) = (offset < next) × (next ≤ length bytes)

take_body-Taken :
    (bytes : List ℕ) (offset element_id len : ℕ)
    → offset + 2 ≤ length bytes
    → Post (Taken bytes offset) (take_body bytes offset element_id len)
unfolding take_body slice
take_body-Taken bytes offset element_id len h = ground arith

take_element-Taken :
    (bytes : List ℕ) (offset element_id : ℕ)
    → offset < length bytes
    → Post (Taken bytes offset) (take_element bytes offset element_id)
unfolding take_element
take_element-Taken bytes offset element_id h = elim (dec_lt (offset + 1) (length bytes)) [
  | no short ↦ ground arith
  | yes long ↦
      rw (index_lem {E = Wpa2Error} bytes (offset + 1) 0 long)
        (ground (arith, take_body-Taken bytes offset element_id (get_or bytes (offset + 1) 0)))
]

take_kde-Taken : (bytes : List ℕ) (offset : ℕ) → Post (Taken bytes offset) (take_kde bytes offset)
unfolding take_kde
take_kde-Taken bytes offset = elim (dec_lt offset (length bytes)) [
  | no over ↦ ground arith
  | yes h ↦
      rw (index_lem {E = Wpa2Error} bytes offset 0 h)
        (ground (arith, take_element-Taken bytes offset (get_or bytes offset 0) h))
]

-- A group key of CCMP with its index.
abbrev pub IsGtk : GtkKde → Type 0
IsGtk g = (length g.key ≡ 16) × (g.key_index < 4)

parse_gtk_body-Post : (body : List ℕ) → Post IsGtk (parse_gtk_body body)
unfolding parse_gtk_body
parse_gtk_body-Post body = elim (Bool-cases (length body == 22)) [
  | inr other ↦ rw other tt
  | inl same ↦
      let h : length body ≡ 22 = (==_iff (length body) 22).0 same in
      rw
        (
          same,
          index_lem {E = Wpa2Error} body 4 0 (omega arith),
          index_lem {E = Wpa2Error} body 5 0 (omega arith),
          slice_from_lem {E = Wpa2Error} body 6 (omega arith),
        )
        (ground (arith, length-drop 6 body))
]

scan_kde-Post :
    (rest : ℕ → Outcome Wpa2Error GtkKde) (bytes : List ℕ) (offset : ℕ)
    (taken : Option (ℕ × List ℕ × ℕ))
    → Taken bytes offset taken
    → ((next : ℕ) → offset < next → next ≤ length bytes → Post IsGtk (rest next))
    → Post IsGtk (scan_kde rest taken)
unfolding scan_kde
scan_kde-Post rest bytes offset none t k = tt
scan_kde-Post rest bytes offset (some (element_id, body, next)) t k =
    if_both (Post IsGtk) _ (parse_gtk_body-Post body) (k next t.0 t.1)

search_gtk-Post :
    (rounds : ℕ) (bytes : List ℕ) (offset : ℕ)
    → offset ≤ length bytes
    → length bytes < rounds + offset
    → Post IsGtk (search_gtk rounds bytes offset)
unfolding search_gtk
search_gtk-Post zero bytes offset i h = absurd (omega arith)
search_gtk-Post (suc rounds) bytes offset i h =
    Post-bind (Taken bytes offset) IsGtk _ _ (take_kde-Taken bytes offset) λ taken t.
      scan_kde-Post _ bytes offset taken t
        λ next a b. search_gtk-Post rounds bytes next b (omega arith)

-- The search for the group key ends within one round for each byte, and never panics, whatever the
-- decrypted key data holds; a key that it finds has 16 bytes, and an index below 4.
pub parse_gtk_kde-IsGtk : (bytes : List ℕ) → Post IsGtk (parse_gtk_kde bytes)
unfolding parse_gtk_kde
parse_gtk_kde-IsGtk bytes = search_gtk-Post (suc (length bytes)) bytes 0 (omega arith) (omega arith)
