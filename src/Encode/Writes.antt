-- ===== src/Encode/Writes.antt =====
-- What a function on the output buffer writes: the bytes of a result, behind what the buffer
-- holds. One rule for each way in which src/encode/mod.rs puts such functions together.
use fastproto.Common.{
  ℕ, ◌^◌, ◌<◌, ◌≡◌, refl, sym, ap, ◌∙◌, if◌then◌else◌, Bool, true, false, List, [], ◌∷◌, ◌++◌,
  length, length-append, append_assoc, append-nil, Result, ok, err, out_of_fuel, ◌>>=◌, arith,
}
use fastproto.Wire.Types.{WireType, len}
use fastproto.Wire.Writer.{write_tag, write_len_delimited, begin_len_prefix, finish_len_prefix}
use fastproto.Wire.Varint.{encoding, write_varint-append}
use fastproto.Wire.RoundTrip.{write_len_delimited-append}
use fastproto.Wire.LenPrefix.{finish_len_prefix-begin_len_prefix}
use fastproto.Python.{CodecError, raised}
use fastproto.Encode.Repeated.{Written, Drawn, drawn, failed, unfinished, framed, for_each}

-- The bytes are those behind the buffer where their length fits a `u64`; the function succeeds in
-- any case.
pub record Appends (f : List ℕ → Written) (bytes : List ℕ) : Type 0 where
  pub total : (buf : List ℕ) → (out : List ℕ) × (f buf ≡ ok out)
  pub exact : length bytes < 2 ^ 64 → (buf : List ℕ) → f buf ≡ ok (buf ++ bytes)

abbrev pub Writes : (List ℕ → Written) → Written → Type 0
Writes f (ok bytes) = Appends f bytes
Writes f (err e) = (buf : List ℕ) → f buf ≡ err e
Writes f out_of_fuel = (buf : List ℕ) → f buf ≡ out_of_fuel

-- A tag and a payload behind it, and a payload behind its tag and its length.
abbrev pub tagged : ℕ → WireType → List ℕ → List ℕ
tagged number w payload = write_tag [] number w ++ payload

abbrev pub chunked : ℕ → List ℕ → List ℕ
chunked number payload = tagged number len (write_len_delimited [] payload)

abbrev pub chunked_or_nothing : ℕ → List ℕ → List ℕ
chunked_or_nothing number [] = []
chunked_or_nothing number (b ∷ payload) = chunked number (b ∷ payload)

-- The bytes of the items, one behind the other.
unfoldable pub each : {A : Type 0} → (A → Written) → List (Drawn A) → Written
each g [] = ok []
each g (unfinished ∷ items) = out_of_fuel
each g (failed ∷ items) = err raised
each g (drawn item ∷ items) = do first ← g item; rest ← each g items; ok (first ++ rest)

pub Writes-pure :
    (f : List ℕ → Written) (bytes : List ℕ)
    → ((buf : List ℕ) → f buf ≡ ok (buf ++ bytes))
    → Writes f (ok bytes)
Writes-pure f bytes h = record { total = λ buf. (buf ++ bytes, h buf); exact = λ room buf. h buf }

pub Writes-same : (f : List ℕ → Written) → ((buf : List ℕ) → f buf ≡ ok buf) → Writes f (ok [])
Writes-same f h = Writes-pure f [] (λ buf. h buf ∙ ap ok (sym (append-nil buf)))

-- A function that gives the same on every buffer.
pub Writes-eq :
    (f f' : List ℕ → Written) (g : Written)
    → ((buf : List ℕ) → f' buf ≡ f buf)
    → Writes f g
    → Writes f' g
Writes-eq f f' (ok bytes) same h = record {
  total = λ buf. let (out, e) = h.total buf in (out, same buf ∙ e);
  exact = λ room buf. same buf ∙ h.exact room buf;
}
Writes-eq f f' (err e) same h = λ buf. same buf ∙ h buf
Writes-eq f f' out_of_fuel same h = λ buf. same buf ∙ h buf

pub Writes-bind :
    {A : Type 0} (m : Result CodecError A) (f : A → List ℕ → Written) (g : A → Written)
    → ((a : A) → Writes (f a) (g a))
    → Writes (λ buf. m >>= λ a. f a buf) (m >>= g)
Writes-bind (ok a) f g h = h a
Writes-bind (err e) f g h = λ buf. refl
Writes-bind out_of_fuel f g h = λ buf. refl

pub Writes-if :
    (b : Bool) (f f' : List ℕ → Written) (g g' : Written)
    → Writes f g
    → Writes f' g'
    → Writes (λ buf. if b then f buf else f' buf) (if b then g else g')
Writes-if true f f' g g' h h' = h
Writes-if false f f' g g' h h' = h'

then_ok :
    (f f' : List ℕ → Written) (a b : List ℕ)
    → Appends f a
    → Appends f' b
    → Appends (λ buf. f buf >>= f') (a ++ b)
then_ok f f' a b h h' = record {
  total = λ buf.
      let (out, e) = h.total buf in let (out', e') = h'.total out in (out', rw (e, ◌>>=◌) e');
  exact = λ room buf.
      rw (h.exact (omega (arith, length-append a b)) buf, ◌>>=◌)
        (h'.exact (omega (arith, length-append a b)) (buf ++ a) ∙ ap ok (append_assoc buf a b));
}

pub Writes-then :
    (f f' : List ℕ → Written) (g g' : Written)
    → Writes f g
    → Writes f' g'
    → Writes (λ buf. f buf >>= f') (g >>= λ a. g' >>= λ b. ok (a ++ b))
Writes-then f f' (ok a) (ok b) h h' = then_ok f f' a b h h'
Writes-then f f' (ok a) (err e) h h' = λ buf. let (out, e₁) = h.total buf in rw (e₁, ◌>>=◌) (h' out)
Writes-then f f' (ok a) out_of_fuel h h' =
    λ buf. let (out, e₁) = h.total buf in rw (e₁, ◌>>=◌) (h' out)
Writes-then f f' (err e) g' h h' = λ buf. rw (h buf, ◌>>=◌) refl
Writes-then f f' out_of_fuel g' h h' = λ buf. rw (h buf, ◌>>=◌) refl

-- A tag is the same bytes in front of any payload.
pub write_tag-behind :
    (buf : List ℕ) (number : ℕ) (w : WireType)
    → write_tag buf number w ≡ buf ++ write_tag [] number w
unfolding write_tag
write_tag-behind buf number w = rw (write_varint-append) (rw (write_varint-append) refl)

pub Writes-tag :
    (f : List ℕ → Written) (g : Written) (number : ℕ) (w : WireType)
    → Writes f g
    → Writes (λ buf. f (write_tag buf number w)) (g >>= λ p. ok (tagged number w p))
Writes-tag f (ok p) number w h = record {
  total = λ buf. h.total (write_tag buf number w);
  exact = λ room buf.
      h.exact (omega (arith, length-append (write_tag [] number w) p)) (write_tag buf number w)
      ∙ ap (λ (l : List ℕ). ok (l ++ p)) (write_tag-behind buf number w)
      ∙ ap ok (append_assoc buf (write_tag [] number w) p);
}
Writes-tag f (err e) number w h = λ buf. h (write_tag buf number w)
Writes-tag f out_of_fuel number w h = λ buf. h (write_tag buf number w)

chunked-behind :
    (buf : List ℕ) (number : ℕ) (p : List ℕ)
    → write_len_delimited (write_tag buf number len) p ≡ buf ++ chunked number p
chunked-behind buf number p =
    write_len_delimited-append (write_tag buf number len) p
    ∙ ap (λ (l : List ℕ). l ++ (encoding (length p) ++ p)) (write_tag-behind buf number len)
    ∙ append_assoc buf (write_tag [] number len) (encoding (length p) ++ p)
    ∙ ap (λ (l : List ℕ). buf ++ (write_tag [] number len ++ l))
        (sym (write_len_delimited-append [] p))

pub chunked-length :
    (number : ℕ) (p : List ℕ) → length (chunked number p) < 2 ^ 64 → length p < 2 ^ 64
chunked-length number p h = omega (
  arith,
  length-append (write_tag [] number len) (write_len_delimited [] p),
  ap length (write_len_delimited-append [] p),
  length-append (encoding (length p)) p,
)

-- The reserved slot is patched to the length of the payload.
framed_exact :
    (f : List ℕ → Written) (number : ℕ) (p : List ℕ)
    → Appends f p
    → length p < 2 ^ 64
    → (buf : List ℕ) → framed f number buf ≡ ok (buf ++ chunked number p)
framed_exact f number p h room buf =
    rw (h.exact room (begin_len_prefix (write_tag buf number len)).0, ◌>>=◌)
      (ap ok (
        finish_len_prefix-begin_len_prefix (write_tag buf number len) p room
        ∙ chunked-behind buf number p))

pub Writes-framed :
    (f : List ℕ → Written) (g : Written) (number : ℕ)
    → Writes f g
    → Writes (framed f number) (g >>= λ p. ok (chunked number p))
Writes-framed f (ok p) number h = record {
  total = λ buf.
      let (reserved, len_pos) = begin_len_prefix (write_tag buf number len) in
      let (out, e) = h.total reserved in (finish_len_prefix out len_pos, rw (e, ◌>>=◌) refl);
  exact = λ room. framed_exact f number p h (chunked-length number p room);
}
Writes-framed f (err e) number h =
    λ buf. rw (h (begin_len_prefix (write_tag buf number len)).0, ◌>>=◌) refl
Writes-framed f out_of_fuel number h =
    λ buf. rw (h (begin_len_prefix (write_tag buf number len)).0, ◌>>=◌) refl

pub Writes-each :
    {A : Type 0} (f : List ℕ → A → Written) (g : A → Written)
    → ((a : A) → Writes (λ buf. f buf a) (g a))
    → (items : List (Drawn A)) → Writes (λ buf. for_each f buf items) (each g items)
unfolding for_each each
Writes-each f g h [] = Writes-same (λ buf. ok buf) (λ buf. refl)
Writes-each f g h (unfinished ∷ items) = λ buf. refl
Writes-each f g h (failed ∷ items) = λ buf. refl
Writes-each f g h (drawn item ∷ items) =
    Writes-then (λ buf. f buf item) (λ buf. for_each f buf items) (g item) (each g items) (h item)
      (Writes-each f g h items)
