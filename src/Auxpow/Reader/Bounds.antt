-- ===== src/Auxpow/Reader/Bounds.antt =====
-- The reader never leaves its buffer: `pos` only grows and never passes the end.
use merge_mining_monitor.Auxpow.{Fault}
use merge_mining_monitor.Auxpow.Reader.{
  Read, Reader, lift, pure, read_array, read_auxpow, read_hashes, read_i32, read_merkle_branch,
  read_slice, read_transaction, read_u8, read_varint, read_varint_rest, skip, ◌>>=◌,
}
use merge_mining_monitor.Base.{
  Bool, Result, [], arith, err, false, if◌then◌else◌, length, ok, refl, suc, true, zero, ℕ, ◌∙◌,
  ◌∷◌, ◌≡◌, ◌≤◌,
}
use merge_mining_monitor.Bitcoin.{Library}

pub record IsValid (r : Reader) : Type 0 where
  pub within : r.pos ≤ length r.buf

-- What a successful read may do to a valid reader.
pub record Advances (r r' : Reader) : Type 0 where
  pub same_buf : r'.buf ≡ r.buf
  pub forward : r.pos ≤ r'.pos
  pub within : r'.pos ≤ length r.buf

pub record Consumes {A : Type 0} (m : Read A) : Type 0 where
  pub at : (r : Reader) (a : A) (r' : Reader) → IsValid r → m r ≡ ok (a, r') → Advances r r'

Advances-IsValid : {r r' : Reader} → Advances r r' → IsValid r'
Advances-IsValid {r} {r'} h = record { within = rw h.same_buf h.within }

Advances-trans : {r r' r'' : Reader} → Advances r r' → Advances r' r'' → Advances r r''
Advances-trans h k = record {
  same_buf = k.same_buf ∙ h.same_buf;
  forward = omega arith;
  within = rw h.same_buf at k.within;
}

module _ {A : Type 0} where
  pub Consumes-pure : (a : A) → Consumes (pure a)
  Consumes-pure a = record { at = λ r b r' v h. ground arith }

  pub Consumes-lift : (m : Result Fault A) → Consumes (lift m)
  Consumes-lift (ok a) = record { at = λ r b r' v h. ground arith }
  Consumes-lift (err e) = record { at = λ r b r' v h. cc }

  pub Consumes-inspect : (f : Reader → A) → Consumes (λ r. ok (f r, r))
  Consumes-inspect f = record { at = λ r b r' v h. ground arith }

  Consumes-if : (b : Bool) (m n : Read A) → Consumes m → Consumes n → Consumes (if b then m else n)
  Consumes-if true m n km kn = km
  Consumes-if false m n km kn = kn

module _ {A B : Type 0} where
  bind_at :
      (m : Result Fault (A × Reader)) (f : A → Read B) (b : B) (r' : Reader)
      → (elim m [ ok (a, s) ↦ f a s | err e ↦ err e ]) ≡ ok (b, r')
      → (a : A) × (s : Reader) × (m ≡ ok (a, s)) × (f a s ≡ ok (b, r'))
  bind_at (ok (a, s)) f b r' h = (a, s, refl, h)
  bind_at (err e) f b r' h = cc

  pub Consumes-bind :
      (m : Read A) (f : A → Read B) → Consumes m → ((a : A) → Consumes (f a)) → Consumes (m >>= f)
  Consumes-bind m f km kf = record {
    at = λ r b r' v h.
        let (a, s, hm, hf) = bind_at (m r) f b r' h in
        let first = km.at r a s v hm in
        Advances-trans first ((kf a).at s b r' (Advances-IsValid first) hf);
  }

ruleset consumes_rules =
    (Consumes-pure, Consumes-lift, Consumes-inspect, Consumes-if, Consumes-bind)

read_slice-Consumes : (len : ℕ) → Consumes (read_slice len)
unfolding read_slice
read_slice-Consumes len = record { at = λ r a r' v h. ground arith }

skip-Consumes : (len : ℕ) → Consumes (skip len)
unfolding skip
skip-Consumes len = search (consumes_rules, read_slice-Consumes)

pub read_array-Consumes : (n : ℕ) → Consumes (read_array n)
unfolding read_array
read_array-Consumes n = read_slice-Consumes n

pub read_u8-Consumes : Consumes read_u8
unfolding read_u8
read_u8-Consumes = search (consumes_rules, read_slice-Consumes)

pub read_i32-Consumes : Consumes read_i32
unfolding read_i32
read_i32-Consumes = search (consumes_rules, read_slice-Consumes)

read_varint_rest-Consumes : (first : ℕ) → Consumes (read_varint_rest first)
unfolding read_varint_rest
read_varint_rest-Consumes first = search (consumes_rules, read_slice-Consumes)

pub read_varint-Consumes : Consumes read_varint
unfolding read_varint
read_varint-Consumes =
    Consumes-bind read_u8 read_varint_rest read_u8-Consumes read_varint_rest-Consumes

pub read_hashes-Consumes : (n : ℕ) → Consumes (read_hashes n)
unfolding read_hashes
read_hashes-Consumes zero = Consumes-pure []
read_hashes-Consumes (suc n) = Consumes-bind (read_array 32) _ (read_array-Consumes 32) λ hash.
    Consumes-bind (read_hashes n) _ (read_hashes-Consumes n) λ hashes. Consumes-pure (hash ∷ hashes)

pub read_merkle_branch-Consumes : Consumes read_merkle_branch
unfolding read_merkle_branch
read_merkle_branch-Consumes = search (consumes_rules, read_varint-Consumes, read_hashes-Consumes)

module _ (lib : Library) where
  pub read_transaction-Consumes : Consumes (read_transaction lib)
  unfolding read_transaction
  read_transaction-Consumes = search (consumes_rules, skip-Consumes)

  -- A successful `read_auxpow` from a valid position moves the reader forward over the same buffer,
  -- to a position that is still at most the buffer's length.
  pub read_auxpow-Consumes : Consumes (read_auxpow lib)
  unfolding read_auxpow
  read_auxpow-Consumes =
      search
        (
          consumes_rules, read_transaction-Consumes, read_array-Consumes,
          read_merkle_branch-Consumes, read_i32-Consumes,
        )
        depth 30
