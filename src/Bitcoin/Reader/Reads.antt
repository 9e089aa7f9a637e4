-- ===== src/Bitcoin/Reader/Reads.antt =====
-- Reading forwards: what a method takes from the bytes ahead, one rule for each way to build it.
use relay_settlement.Common.{
  ℕ, ◌+◌, ◌≡◌, refl, ◌∙◌, Bool, true, List, [], ◌∷◌, ◌++◌, append_assoc, arith, ok, err, length,
  take, drop, length-append, take-append, drop-append, drop-drop, ap, subst,
}
use relay_settlement.Bitcoin.Reader.{Error, Reader, Parse, pure, ◌>>=◌, ◌>>◌, bytes_n, unless, end}

-- The reader `r` has exactly `rest` ahead.
pub record At (r : Reader) (rest : List ℕ) : Type 0 where
  pub ahead : drop r.offset r.bytes ≡ rest
  pub within : r.offset + length rest ≡ length r.bytes

-- `m` takes `xs` from the front of what is ahead and returns `a`, whatever follows `xs`.
pub record Reads {ℓ} {A : Type ℓ} (m : Parse A) (xs : List ℕ) (a : A) : Type ℓ where
  pub at :
      (r : Reader) (rest : List ℕ)
      → At r (xs ++ rest)
      → (s : Reader) × (m r ≡ ok (a, s)) × At s rest

pub Reads-bytes_n : (xs : List ℕ) → Reads (bytes_n (length xs)) xs xs
unfolding bytes_n
Reads-bytes_n xs = record {
  at = λ r rest h.
      let room : r.offset + length xs + length rest ≡ length r.bytes =
        omega (arith, h.within, length-append xs rest) in
      let front : take (length xs) (drop r.offset r.bytes) ≡ xs =
        ap (take (length xs)) h.ahead ∙ take-append xs rest in
      (
        record r { offset = r.offset + length xs },
        ground (arith, room, front),
        record {
          ahead =
              drop-drop r.offset (length xs) r.bytes
              ∙ ap (drop (length xs)) h.ahead
              ∙ drop-append xs rest;
          within = room;
        },
      );
}

module _ {ℓ} {A : Type ℓ} where
  pub Reads-pure : (a : A) → Reads (pure a) [] a
  unfolding pure
  Reads-pure a = record { at = λ r rest h. (r, refl, h) }

  pub Reads-unless :
      (test : Bool) (e : Error) (m : Parse A) (xs : List ℕ) (a : A)
      → test ≡ true
      → Reads m xs a
      → Reads (unless test e >> m) xs a
  unfolding ◌>>=◌
  Reads-unless test e m xs a t h = record { at = λ r rest k. rw t (h.at r rest k) }

module _ {ℓ κ} {A : Type ℓ} {B : Type κ} where
  pub Reads-bind :
      (m : Parse A) (f : A → Parse B) (xs ys : List ℕ) (a : A) (b : B)
      → Reads m xs a
      → Reads (f a) ys b
      → Reads (m >>= f) (xs ++ ys) b
  unfolding ◌>>=◌
  Reads-bind m f xs ys a b hm hf = record {
    at = λ r rest h.
        let (s, e, k) = hm.at r (ys ++ rest) (rw append_assoc at h) in
        let (t, e', k') = hf.at s rest k in (t, rw e e', k');
  }

  -- The last step returns without reading.
  pub Reads-last :
      (m : Parse A) (f : A → Parse B) (xs : List ℕ) (a : A) (b : B)
      → Reads m xs a
      → Reads (f a) [] b
      → Reads (m >>= f) xs b
  unfolding ◌>>=◌
  Reads-last m f xs a b hm hf = record {
    at = λ r rest h.
        let (s, e, k) = hm.at r rest h in let (t, e', k') = hf.at s rest k in (t, rw e e', k');
  }

-- Reading at a list that is equal.
pub Reads-eq {ℓ} :
    {A : Type ℓ} (m : Parse A) (a : A) {xs ys : List ℕ} → xs ≡ ys → Reads m xs a → Reads m ys a
Reads-eq m a p h = subst (λ t. Reads m t a) p h

-- Nothing ahead: `end` accepts.
pub end-At : (r : Reader) → At r [] → end r ≡ ok (tt, r)
unfolding end
end-At r h = ground (arith, h.within)

-- Something ahead: `end` refuses.
pub end_trailing :
    (r : Reader) (x : ℕ) (xs : List ℕ) → At r (x ∷ xs) → end r ≡ err Error.trailing_bytes
unfolding end
end_trailing r x xs h = ground (arith, h.within)
