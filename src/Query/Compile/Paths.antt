-- ===== src/Query/Compile/Paths.antt =====
-- The path of a query: field selectors between dots.
use postgres_protobuf.Common.{
  ℕ, ◌≡◌, refl, sym, ap, ◌∙◌, ◌≢◌, false, List, [], ◌∷◌, ◌++◌, arith, ◌==◌, All, Bytes, find,
  Without,
}
use mathlib.Core.List.{append_assoc, append-nil}
use mathlib.Core.Path.{fun_ext}
use postgres_protobuf.Result.{Result, ok, err, ◌>>=◌}
use postgres_protobuf.Library.{Protobuf}
use postgres_protobuf.Field.{Uninitialized}
use postgres_protobuf.Query.Part.{compile_query_part}
use postgres_protobuf.Query.Compile.{Compiled, descend, compile_path, compile_last}

-- A part of a path: not empty, and with no dot in it.
abbrev pub IsPart : Bytes → Type 0
IsPart part = (part ≢ []) × Without b'.' part

-- Parts joined by dots.
abbrev pub join : Bytes → List Bytes → Bytes
join part [] = part
join part (next ∷ parts) = part ++ b'.' ∷ join next parts

pub >>=_assoc :
    {A B C : Type 0} (m : Result A) (f : A → Result B) (g : B → Result C)
    → (m >>= f >>= g) ≡ (m >>= λ a. f a >>= g)
>>=_assoc (ok a) f g = refl
>>=_assoc (err e) f g = refl

cons_nil : (part : Bytes) (ch : ℕ) (s : Bytes) → (part ++ ch ∷ []) ++ s ≡ part ++ ch ∷ s
cons_nil part ch s = append_assoc part (ch ∷ []) s

find_tail : (c x : ℕ) (s : Bytes) → Without c (x ∷ s) → ((x == c) ≡ false) × Without c s
unfolding find
find_tail c x s h = (ground arith, ground arith)

module _ (pb : Protobuf) (u : Uninitialized) where
  -- The visitors of the parts, in order, with a descent before each part but the first.
  unfoldable pub compile_parts : Bytes → List Bytes → Compiled → Result Compiled
  unfolding compile_query_part
  compile_parts part [] c = compile_query_part pb u part c
  compile_parts part (next ∷ parts) c =
      compile_query_part pb u part c >>= λ c'. compile_parts next parts (descend c')

  path_dot :
      (part rest buf : Bytes) (c : Compiled)
      → Without b'.' part
      → compile_path pb u (part ++ b'.' ∷ rest) buf c
        ≡ (compile_query_part pb u (buf ++ part) c >>= λ c'. compile_path pb u rest [] (descend c'))
  unfolding compile_path
  path_dot [] rest buf c h = rw append-nil
  path_dot (ch ∷ part) rest buf c h =
      let (other, h') = find_tail b'.' ch part h in
      rw other (path_dot part rest (buf ++ ch ∷ []) c h' ∙ rw cons_nil)

  path_end :
      (part buf : Bytes) (c : Compiled)
      → Without b'.' part
      → compile_path pb u part buf c ≡ ok (buf ++ part, c)
  unfolding compile_path
  path_end [] buf c h = rw append-nil
  path_end (ch ∷ part) buf c h =
      let (other, h') = find_tail b'.' ch part h in
      rw other (path_end part (buf ++ ch ∷ []) c h' ∙ rw cons_nil)

  last_part :
      (part : Bytes) (c : Compiled)
      → part ≢ []
      → compile_last pb u (part, c) ≡ compile_query_part pb u part c
  last_part [] c h = absurd (h refl)
  last_part (b ∷ bs) c h = refl

  -- Compiling a path character by character is compiling its parts in order.
  pub compile_path-join :
      (part : Bytes) (parts : List Bytes) (c : Compiled)
      → IsPart part
      → All IsPart parts
      → (compile_path pb u (join part parts) [] c >>= compile_last pb u)
        ≡ compile_parts part parts c
  unfolding compile_parts
  compile_path-join part [] c (full, h) hs = rw (path_end part [] c h) (last_part part c full)
  compile_path-join part (next ∷ parts) c (full, h) (h', hs) =
      rw (path_dot part (join next parts) [] c h) (
        >>=_assoc (compile_query_part pb u part c) _ (compile_last pb u)
        ∙ ap (λ k. compile_query_part pb u part c >>= k)
            (fun_ext λ c'. compile_path-join next parts (descend c') h' hs))

  -- A path that ends in a dot is accepted wherever the path without the dot is, and it only adds a
  -- descent before the emitter.
  pub compile_path-trailing_dot :
      (part : Bytes) (parts : List Bytes) (c : Compiled)
      → IsPart part
      → All IsPart parts
      → (compile_path pb u (join part parts ++ b'.' ∷ []) [] c >>= compile_last pb u)
        ≡ (compile_parts part parts c >>= λ c'. ok (descend c'))
  unfolding compile_parts compile_path
  compile_path-trailing_dot part [] c (full, h) hs =
      rw (path_dot part [] [] c h)
        (>>=_assoc (compile_query_part pb u part c) _ (compile_last pb u))
  compile_path-trailing_dot part (next ∷ parts) c (full, h) (h', hs) =
      rw
        (
          append_assoc part (b'.' ∷ join next parts) (b'.' ∷ []),
          path_dot part (join next parts ++ b'.' ∷ []) [] c h,
        )
        (>>=_assoc (compile_query_part pb u part c) _ (compile_last pb u)
          ∙ ap (λ k. compile_query_part pb u part c >>= k)
              (fun_ext λ c'. compile_path-trailing_dot next parts (descend c') h' hs)
          ∙ sym (>>=_assoc (compile_query_part pb u part c) _ (λ c'. ok (descend c'))))
