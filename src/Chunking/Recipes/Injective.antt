-- ===== src/Chunking/Recipes/Injective.antt =====
-- Different recipes have different messages.
use stopan.Prelude.{
  ◌≡◌, refl, sym, ap, ap₂, ◌∙◌, subst, true, none, List, [], ◌∷◌, ◌++◌, Bytes, length,
  length-append, ok, >>=-eq-ok, ok-inj, arith, All,
}
use stopan.Erasure.Models.{is_valid_blake3_hex}
use stopan.Chunking.Recipes.{
  fromhex_from, fromhex, to_bytes, RecipeChunk, chunk_bytes, chunks_bytes, recipe_message,
  recipe_hash_domain,
}
use stopan.Chunking.Recipes.BigEndian.{++-inj, length-to_bytes, to_bytes-inj}
use stopan.Chunking.Recipes.Hex.{IsHex, length-fromhex, fromhex_from-inj}

-- The three fields of a chunk in the message.
record IsEncoded (c : RecipeChunk) (x : Bytes) : Type 0 where
  order_bytes : Bytes
  hash_bytes : Bytes
  size_bytes : Bytes
  order_is : to_bytes 4 c.order ≡ ok order_bytes
  hash_is : fromhex_from none c.chunk_hash ≡ ok hash_bytes
  size_is : to_bytes 8 c.size ≡ ok size_bytes
  whole : x ≡ order_bytes ++ (hash_bytes ++ size_bytes)

chunk_bytes-IsEncoded : (c : RecipeChunk) (x : Bytes) → chunk_bytes c ≡ ok x → IsEncoded c x
unfolding chunk_bytes fromhex
chunk_bytes-IsEncoded c x h =
    let (o, order_is, h1) = >>=-eq-ok (to_bytes 4 c.order) _ h in
    let (r, hash_is, h2) = >>=-eq-ok (fromhex_from none c.chunk_hash) _ h1 in
    let (z, size_is, h3) = >>=-eq-ok (to_bytes 8 c.size) _ h2 in
    record {
      order_bytes = o;
      hash_bytes = r;
      size_bytes = z;
      order_is = order_is;
      hash_is = hash_is;
      size_is = size_is;
      whole = sym (ok-inj h3);
    }

-- A chunk that is named by a BLAKE3 digest.
abbrev pub HasDigest : RecipeChunk → Type 0
HasDigest c = is_valid_blake3_hex c.chunk_hash ≡ true

HasDigest-IsHex : (c : RecipeChunk) → HasDigest c → (length c.chunk_hash ≡ 64) × IsHex c.chunk_hash
unfolding is_valid_blake3_hex
HasDigest-IsHex c h = ground arith

length-hash_bytes :
    (c : RecipeChunk) (x : Bytes) (e : IsEncoded c x) → HasDigest c → length e.hash_bytes ≡ 32
length-hash_bytes c x e h =
    let (long, hex) = HasDigest-IsHex c h in
    omega (arith, length-fromhex c.chunk_hash e.hash_bytes hex e.hash_is)

length-chunk_bytes : (c : RecipeChunk) (x : Bytes) → HasDigest c → IsEncoded c x → length x ≡ 44
length-chunk_bytes c x h e = omega (
  arith,
  ap length e.whole,
  length-append e.order_bytes (e.hash_bytes ++ e.size_bytes),
  length-append e.hash_bytes e.size_bytes,
  length-to_bytes 4 c.order e.order_bytes e.order_is,
  length-hash_bytes c x e h,
  length-to_bytes 8 c.size e.size_bytes e.size_is,
)

RecipeChunk-eq :
    (c d : RecipeChunk) → c.order ≡ d.order → c.chunk_hash ≡ d.chunk_hash → c.size ≡ d.size → c ≡ d
RecipeChunk-eq c d o h s = cc

chunk_bytes-inj :
    (c d : RecipeChunk) (x : Bytes)
    → HasDigest c
    → HasDigest d
    → IsEncoded c x
    → IsEncoded d x
    → c ≡ d
chunk_bytes-inj c d x h k e f =
    let (orders, after) =
      ++-inj e.order_bytes f.order_bytes (e.hash_bytes ++ e.size_bytes)
        (f.hash_bytes ++ f.size_bytes)
        (length-to_bytes 4 c.order e.order_bytes e.order_is
          ∙ sym (length-to_bytes 4 d.order f.order_bytes f.order_is))
        (sym e.whole ∙ f.whole) in
    let (hashes, sizes) =
      ++-inj e.hash_bytes f.hash_bytes e.size_bytes f.size_bytes
        (length-hash_bytes c x e h ∙ sym (length-hash_bytes d x f k)) after in
    let (_, hex_c) = HasDigest-IsHex c h in
    let (_, hex_d) = HasDigest-IsHex d k in
    RecipeChunk-eq c d
      (to_bytes-inj 4 c.order d.order e.order_bytes e.order_is (f.order_is ∙ ap ok (sym orders)))
      (fromhex_from-inj c.chunk_hash d.chunk_hash e.hash_bytes hex_c hex_d e.hash_is
        (f.hash_is ∙ ap ok (sym hashes)))
      (to_bytes-inj 8 c.size d.size e.size_bytes e.size_is (f.size_is ∙ ap ok (sym sizes)))

chunks_bytes-inj :
    (cs ds : List RecipeChunk) (x : Bytes)
    → All HasDigest cs
    → All HasDigest ds
    → chunks_bytes cs ≡ ok x
    → chunks_bytes ds ≡ ok x
    → cs ≡ ds
unfolding chunks_bytes
chunks_bytes-inj [] [] x h k e f = refl
chunks_bytes-inj [] (d ∷ ds) x h (kd, k) e f =
    let (y, first, f1) = >>=-eq-ok (chunk_bytes d) _ f in
    let (rest, _, f2) = >>=-eq-ok (chunks_bytes ds) _ f1 in
    absurd (
      omega (
        arith,
        length-chunk_bytes d y kd (chunk_bytes-IsEncoded d y first),
        length-append y rest,
        ap length (ok-inj f2),
        ap length (ok-inj e),
      ))
chunks_bytes-inj (c ∷ cs) [] x (hc, h) k e f =
    let (y, first, e1) = >>=-eq-ok (chunk_bytes c) _ e in
    let (rest, _, e2) = >>=-eq-ok (chunks_bytes cs) _ e1 in
    absurd (
      omega (
        arith,
        length-chunk_bytes c y hc (chunk_bytes-IsEncoded c y first),
        length-append y rest,
        ap length (ok-inj e2),
        ap length (ok-inj f),
      ))
chunks_bytes-inj (c ∷ cs) (d ∷ ds) x (hc, h) (kd, k) e f =
    let (y, first, e1) = >>=-eq-ok (chunk_bytes c) _ e in
    let (rest, more, e2) = >>=-eq-ok (chunks_bytes cs) _ e1 in
    let (z, front, f1) = >>=-eq-ok (chunk_bytes d) _ f in
    let (tail, others, f2) = >>=-eq-ok (chunks_bytes ds) _ f1 in
    let enc_c = chunk_bytes-IsEncoded c y first in
    let enc_d = chunk_bytes-IsEncoded d z front in
    let (heads, tails) =
      ++-inj y z rest tail (length-chunk_bytes c y hc enc_c ∙ sym (length-chunk_bytes d z kd enc_d))
        (ok-inj e2 ∙ sym (ok-inj f2)) in
    ap₂ (λ (a : RecipeChunk) (l : List RecipeChunk). a ∷ l)
      (chunk_bytes-inj c d y hc kd enc_c (subst (IsEncoded d) (sym heads) enc_d))
      (chunks_bytes-inj cs ds rest h k more (others ∙ ap ok (sym tails)))

-- Two recipes whose chunks are named by valid digests and that have the same message are the same
-- recipe: the same chunks with the same orders and sizes.
pub recipe_message-inj :
    (cs ds : List RecipeChunk) (message : Bytes)
    → All HasDigest cs
    → All HasDigest ds
    → recipe_message cs ≡ ok message
    → recipe_message ds ≡ ok message
    → cs ≡ ds
unfolding recipe_message
recipe_message-inj cs ds message h k e f =
    let (x, body, e1) = >>=-eq-ok (chunks_bytes cs) _ e in
    let (y, other, f1) = >>=-eq-ok (chunks_bytes ds) _ f in
    let (_, same) =
      ++-inj recipe_hash_domain recipe_hash_domain x y refl (ok-inj e1 ∙ sym (ok-inj f1)) in
    chunks_bytes-inj cs ds x h k body (other ∙ ap ok (sym same))
