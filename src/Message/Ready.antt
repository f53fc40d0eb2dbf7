-- ===== src/Message/Ready.antt =====
-- What the decoder relies on in a descriptor, linked or not: `compile` and `link` of
-- src/message/mod.rs keep it.
use fastproto.Common.{
  ℕ, ◌==◌, ==→eq, ◌≡◌, refl, sym, ap, subst, Bool-cases, inl, inr, true, Option, none, some, List,
  [], length, ok, >>=-eq-ok,
}
use fastproto.Parse.Message.{parse_message}
use fastproto.Message.Link.{Refs, FastInit}
use fastproto.Message.Class.{Descriptor, compile}
use fastproto.Message.Compiled.{IsCompiled, compile-IsCompiled}
use fastproto.Message.Linking.{set_once, collect_linked, set_fast_init, link}
use fastproto.Python.{Python, Runtime}

-- The fast path has a default for every field.
abbrev pub HasDefaults : {Obj : Type 0} → ℕ → Option (FastInit Obj) → Type 0
HasDefaults n none = Unit
HasDefaults n (some fast) = length fast.defaults ≡ n

pub record IsReady {Obj : Type 0} (d : Descriptor Obj) : Type 0 where
  pub compiled : IsCompiled d
  pub defaults : HasDefaults (length d.inner.fields) d.fast_init

set_once-HasDefaults :
    {Obj : Type 0} (n : ℕ) (old : Option (FastInit Obj)) (new : FastInit Obj)
    → HasDefaults n old
    → length new.defaults ≡ n
    → HasDefaults n (set_once old new)
set_once-HasDefaults n none new h e = e
set_once-HasDefaults n (some old) new h e = h

module _ (py : Python) (rt : Runtime py) (d : Descriptor py.Obj) where
  set_fast_init-HasDefaults :
      (fast after : Option (FastInit py.Obj))
      → HasDefaults (length d.inner.fields) d.fast_init
      → set_fast_init py rt d fast ≡ ok after
      → HasDefaults (length d.inner.fields) after
  unfolding set_fast_init
  set_fast_init-HasDefaults none after h e =
      subst (HasDefaults (length d.inner.fields)) {x = d.fast_init} {y = after} (cc) h
  set_fast_init-HasDefaults (some fast) after h e =
      elim (Bool-cases (length fast.defaults == length d.inner.fields)) [
        | inl same ↦
            subst (HasDefaults (length d.inner.fields)) {x = set_once d.fast_init fast} {y = after}
              (cc (rw same at e)) (set_once-HasDefaults _ d.fast_init fast h (==→eq _ _ same))
        | inr other ↦ cc (rw other at e)
      ]

  -- A descriptor that was linked: what it had is kept, and it counts as linked.
  pub record IsLinked (d' : Descriptor py.Obj) : Type 0 where
    pub ready : IsReady d'
    pub same_inner : d'.inner ≡ d.inner
    pub is_set : d'.linked ≡ true
    pub first_refs : (refs : Refs py.Obj) → d.refs ≡ some refs → d'.refs ≡ some refs
    pub first_fast_init :
        (fast : FastInit py.Obj) → d.fast_init ≡ some fast → d'.fast_init ≡ some fast

  set_fast_init-first :
      (fast after : Option (FastInit py.Obj)) (f : FastInit py.Obj)
      → d.fast_init ≡ some f
      → set_fast_init py rt d fast ≡ ok after
      → after ≡ some f
  unfolding set_fast_init
  set_fast_init-first none after f h e = cc
  set_fast_init-first (some fast) after f h e =
      elim (Bool-cases (length fast.defaults == length d.inner.fields)) [
        | inl same ↦
            let stays : set_once d.fast_init fast ≡ some f =
              ap (λ (o : Option (FastInit py.Obj)). set_once o fast) h in
            cc (rw same at e, stays)
        | inr other ↦ cc (rw other at e)
      ]

  -- Linking keeps a descriptor ready for the decoder and marks it as linked; what an earlier call
  -- set, the references and the class of the fast path, stays as it is.
  pub link-IsLinked :
      (mapping : List (py.Obj × py.Obj)) (fast : Option (FastInit py.Obj)) (d' : Descriptor py.Obj)
      → IsReady d
      → link py rt d mapping fast ≡ ok d'
      → IsLinked d'
  unfolding link
  link-IsLinked mapping fast d' h e =
      let (refs, e₁, rest) = >>=-eq-ok (collect_linked py rt [] mapping) _ e in
      let (after, e₂, rest') = >>=-eq-ok (set_fast_init py rt d fast) _ rest in
      let made : Descriptor py.Obj = record d {
        refs = set_once d.refs refs;
        linked = true;
        fast_init = after;
      } in
      let formed : IsLinked made = record {
        ready = record {
          compiled = record {
            data_bytes = h.compiled.data_bytes;
            parsed = h.compiled.parsed;
            same_names = h.compiled.same_names;
            same_index = h.compiled.same_index;
          };
          defaults = set_fast_init-HasDefaults fast after h.defaults e₂;
        };
        same_inner = refl;
        is_set = refl;
        first_refs = λ r k. ap (λ (o : Option (Refs py.Obj)). set_once o refs) k;
        first_fast_init = λ f k. set_fast_init-first fast after f k e₂;
      } in
      subst IsLinked {x = made} {y = d'} (cc rest') formed

-- A descriptor that was just compiled is ready.
pub compile-IsReady :
    {Obj : Type 0} (data_bytes : List ℕ) (d : Descriptor Obj)
    → compile data_bytes ≡ ok d
    → IsReady d
unfolding compile
compile-IsReady data_bytes d h =
    let (inner, e, rest) = >>=-eq-ok (parse_message data_bytes) _ h in
    let unset : d.fast_init ≡ none = cc rest in
    record {
      compiled = compile-IsCompiled data_bytes d h;
      defaults = subst (HasDefaults (length d.inner.fields)) (sym unset) tt;
    }
