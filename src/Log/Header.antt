-- ===== src/Log/Header.antt =====
-- The header block: what write_head writes, read_head reads.
use ntnu_courses.Base.{
  ℕ, ◌+◌, ◌≤◌, ◌≡◌, refl, ap₂, ap, ◌∙◌, List, [], ◌∷◌, length, update, update_self, update_ne,
  arith,
}
use ntnu_courses.Log.{Block, Store, read_words, read_head, write_words, encode, write_head}

write_words-below : (l : List ℕ) (i : ℕ) (hb : Block) (a : ℕ) → a ≤ i → write_words l i hb a ≡ hb a
unfolding write_words
write_words-below [] i hb a h = refl
write_words-below (b ∷ l) i hb a h =
    write_words-below l (i + 1) (update hb (i + 1) b) a (omega arith)
    ∙ update_ne hb (i + 1) a b (omega arith)

read-write_words :
    (l : List ℕ) (i : ℕ) (hb : Block) → read_words (length l) i (write_words l i hb) ≡ l
unfolding read_words write_words
read-write_words [] i hb = refl
read-write_words (b ∷ l) i hb =
    ap₂ ◌∷◌
      (write_words-below l (i + 1) (update hb (i + 1) b) (i + 1) (omega arith)
        ∙ update_self hb (i + 1) b)
      (read-write_words l (i + 1) (update hb (i + 1) b))

pub encode-count : (lh : List ℕ) (hb : Block) → encode lh hb 0 ≡ length lh
unfolding encode
encode-count lh hb =
    write_words-below lh 0 (update hb 0 (length lh)) 0 (omega arith) ∙ update_self hb 0 (length lh)

-- The header that a block holds.
abbrev pub decode : Block → List ℕ
decode hb = read_words (hb 0) 0 hb

pub decode-encode : (lh : List ℕ) (hb : Block) → decode (encode lh hb) ≡ lh
unfolding encode
decode-encode lh hb =
    ap (λ n. read_words n 0 (encode lh hb)) (encode-count lh hb)
    ∙ read-write_words lh 0 (update hb 0 (length lh))

-- read_head after write_head gives the header that was written, whatever the block held before.
pub read_head-write_head :
    (start : ℕ) (lh : List ℕ) (s : Store) → read_head start (write_head start lh s) ≡ lh
unfolding read_head write_head
read_head-write_head start lh s =
    ap decode (update_self s.cache start (encode lh (s.cache start)))
    ∙ decode-encode lh (s.cache start)
