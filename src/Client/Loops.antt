-- ===== src/Client/Loops.antt =====
-- The loops of `_message_get` of src/lib/libmsg.c, on bytes that come in pieces.
use open_dax.Base.{
  ℕ, ◌+◌, ◌-◌, ◌≤◌, ◌<◌, ◌≡◌, refl, ap, sym, ◌∙◌, List, [], ◌∷◌, ◌++◌, length, take, drop, ret,
  arith, length-append, length-take, length-drop, take-append-drop,
}
use open_dax.Memory.{Block}
use open_dax.Memory.Pieces.{joined, NotEmpty, append-split}
use open_dax.Store.Notify.{dax_msgmax}
use open_dax.Client.{Arrival, bytes, would_block, broken, Taken, receive}
use mathlib.Core.List.{append_assoc, append-nil}
use native.Mathlib.Decide.{dec_lt}

-- Pieces that arrive, and what comes then.
unfoldable pub coming : List Block → List Arrival → List Arrival
coming [] tail = tail
coming (piece ∷ pieces) tail = bytes piece ∷ coming pieces tail

receive-done :
    (ask : ℕ → ℕ) (limit : ℕ) (got : Block) (arrivals : List Arrival)
    → limit ≤ length got
    → receive ask limit got arrivals ≡ ret (record { block = got; rest = arrivals })
unfolding receive
receive-done ask limit got [] h = ground arith
receive-done ask limit got (would_block ∷ rest) h = ground arith
receive-done ask limit got (broken ∷ rest) h = ground arith
receive-done ask limit got (bytes [] ∷ rest) h = ground arith
receive-done ask limit got (bytes (x ∷ xs) ∷ rest) h = ground arith

-- A piece that is not more than what is asked for.
receive-all :
    (ask : ℕ → ℕ) (limit : ℕ) (got piece : Block) (rest : List Arrival)
    → length got < limit
    → 0 < length piece
    → length piece ≤ ask (length got)
    → length got + length piece ≤ dax_msgmax
    → receive ask limit got (bytes piece ∷ rest) ≡ receive ask limit (got ++ piece) rest
unfolding receive
receive-all ask limit got [] rest h k l m = absurd (omega arith)
receive-all ask limit got (x ∷ xs) rest h k l m = ground (arith, length-append got (x ∷ xs))

receive-part :
    (ask : ℕ → ℕ) (limit : ℕ) (got piece : Block) (rest : List Arrival)
    → length got < limit
    → ask (length got) < length piece
    → length got + ask (length got) ≤ dax_msgmax
    → receive ask limit got (bytes piece ∷ rest)
      ≡ ret (record {
        block = got ++ take (ask (length got)) piece;
        rest = bytes (drop (ask (length got)) piece) ∷ rest;
      })
unfolding receive
receive-part ask limit got [] rest h k m = absurd (omega arith)
receive-part ask limit got (x ∷ xs) rest h k m = ground (
  arith,
  length-append got (take (ask (length got)) (x ∷ xs)),
  length-take (ask (length got)) (x ∷ xs),
)

-- What a loop leaves of pieces: these bytes taken, and pieces that make up the others.
pub record Leaves (taken extra : Block) (tail : List Arrival) (t : Taken) : Type 0 where
  pub pieces : List Block
  pub is : t ≡ record { block = taken; rest = coming pieces tail }
  pub others : joined pieces ≡ extra
  pub full : NotEmpty pieces

-- The loop for the data takes the data out of pieces of any size.
pub receive-Leaves :
    (got payload extra : Block) (pieces : List Block) (tail : List Arrival)
    → NotEmpty pieces
    → got ++ joined pieces ≡ payload ++ extra
    → length got ≤ length payload
    → length payload ≤ dax_msgmax
    → (t : Taken) × (receive
          (λ index. length payload - index)
          (length payload)
          got
          (coming pieces tail)
        ≡ ret t)
      × Leaves payload extra tail t
unfolding coming joined
receive-Leaves got payload extra [] tail ne e h k =
    let n : length got ≡ length payload =
      omega (arith, ap length e, length-append got [], length-append payload extra, h) in
    let (p, q) = append-split got payload [] extra n e in
    (
      _,
      receive-done (λ index. length payload - index) (length payload) got tail (omega (arith, n)),
      record { pieces = []; is = rw p refl; others = q; full = tt },
    )
receive-Leaves got payload extra (piece ∷ pieces) tail ne e h k =
    let ask = λ (index : ℕ). length payload - index in
    let size = length payload in
    let rest = coming pieces tail in
    elim (dec_lt (length got) size) [
      | no d ↦
          let (p, q) = append-split got payload (piece ++ joined pieces) extra (omega arith) e in
          (
            _,
            receive-done ask size got (bytes piece ∷ rest) (omega arith),
            record { pieces = piece ∷ pieces; is = rw p refl; others = q; full = ne },
          )
      | yes d ↦ elim (dec_lt (size - length got) (length piece)) [
        | no l ↦
            let (t, f, r) =
              receive-Leaves (got ++ piece) payload extra pieces tail ne.1
                (append_assoc got piece (joined pieces) ∙ e)
                (omega (arith, length-append got piece)) k in
            (t, receive-all ask size got piece rest d ne.0 (omega arith) (omega arith) ∙ f, r)
        | yes l ↦
            let n = size - length got in
            let front = got ++ take n piece in
            let back = drop n piece in
            let e' : front ++ (back ++ joined pieces) ≡ payload ++ extra =
              append_assoc got (take n piece) (back ++ joined pieces)
              ∙ (ap (λ x. got ++ x)
                    (sym (append_assoc (take n piece) back (joined pieces))
                      ∙ ap (λ x. x ++ joined pieces) (take-append-drop n piece))
                  ∙ e) in
            let (p, q) =
              append-split front payload (back ++ joined pieces) extra
                (omega (arith, length-append got (take n piece), length-take n piece)) e' in
            (
              _,
              receive-part ask size got piece rest d l (omega arith),
              record {
                pieces = back ∷ pieces;
                is = rw p refl;
                others = q;
                full = (omega (arith, length-drop n piece), ne.1);
              },
            )
      ]
    ]

-- The loop for the header takes eight bytes out of a first piece that has them.
pub header-Leaves :
    (first : Block) (pieces : List Block) (tail : List Arrival)
    → 8 ≤ length first
    → NotEmpty pieces
    → (t : Taken) × (receive (λ index. 8) 8 [] (coming (first ∷ pieces) tail) ≡ ret t)
      × Leaves (take 8 first) (drop 8 first ++ joined pieces) tail t
unfolding coming joined
header-Leaves first pieces tail h ne =
    let rest = coming pieces tail in
    elim (dec_lt 8 (length first)) [
      | yes l ↦ (
        _,
        receive-part (λ index. 8) 8 [] first rest (omega arith) l (omega arith),
        record {
          pieces = drop 8 first ∷ pieces;
          is = refl;
          others = refl;
          full = (omega (arith, length-drop 8 first), ne);
        },
      )
      | no l ↦
          let n : length first ≡ 8 = omega arith in
          let (p, q) =
            append-split first (take 8 first) [] (drop 8 first) (omega (arith, length-take 8 first))
              (append-nil first ∙ sym (take-append-drop 8 first)) in
          (
            _,
            receive-all (λ index. 8) 8 [] first rest (omega arith) (omega arith) (omega arith)
                  (omega arith)
                ∙ receive-done (λ index. 8) 8 first rest (omega arith),
            record {
              pieces = pieces;
              is = ap (λ b. record { block = b; rest = rest }) p;
              others = ap (λ b. b ++ joined pieces) q;
              full = ne;
            },
          )
    ]
