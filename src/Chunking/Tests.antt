-- ===== src/Chunking/Tests.antt =====
-- Decisions of a planner on concrete chunks.
use stopan.Prelude.{
  ◌+◌, ◌≡◌, refl, ◌≤◌, Bool, true, false, Option, none, List, [], ◌∷◌, Text, codes, text_eq, length,
  max, ok, err, replicate, ◌++◌, ◌^◌, Bytes,
}
use stopan.Protection.{ℤ, pos, negsuc}
use stopan.Erasure.Models.{is_valid_blake3_hex}
use stopan.Chunking.{
  ChunkPlanner, make_planner, process, skip_local, skip_synced, new_index, decide_all,
}
use stopan.Chunking.Recipes.{RecipeChunk, overflow, recipe_message}
use stopan.Chunking.Recipes.Injective.{recipe_message-inj}
use stopan.Chunking.Caching.{policy_all, decide_all-policy}
use stopan.Chunking.Size.{decide_all-size}

abbrev in_store : Text → Bool
in_store h = text_eq h (codes "a")

abbrev is_protected : Text → ℤ → Option Text → Bool
is_protected h required epoch = text_eq h (codes "b")

abbrev planner : ChunkPlanner
planner = record {
  fast_path_enabled = true;
  safe_mode = false;
  allow_remote_protected_skip = true;
  desired_rf = pos 2;
  placement_epoch = none;
}

planner_made : make_planner true false true (pos 2) none ≡ ok planner
unfolding make_planner
planner_made = refl

abbrev chunks : List Text
chunks = codes "a" ∷ codes "b" ∷ codes "c" ∷ codes "a" ∷ codes "c" ∷ []

-- The third chunk is new, and in the store when it is met again.
decisions :
    (decide_all in_store is_protected planner chunks (new_index 2)).0
    ≡ skip_local ∷ skip_synced ∷ process ∷ skip_local ∷ skip_local ∷ []
unfolding decide_all new_index text_eq
decisions = refl

decide_all-policy_example :
    (decide_all in_store is_protected planner chunks (new_index 2)).0
    ≡ policy_all in_store is_protected planner chunks
decide_all-policy_example = decide_all-policy in_store is_protected planner 2 chunks

decide_all-size_example :
    let index = (decide_all in_store is_protected planner chunks (new_index 2)).1 in
    (length index.local_exists.entries ≤ max 2 1 + 1023)
    × (length index.remotely_protected.entries ≤ max 2 1 + 1023)
decide_all-size_example = decide_all-size in_store is_protected planner 2 chunks

abbrev chunk_at : ℤ → RecipeChunk
chunk_at n = record { order = n; chunk_hash = replicate 64 b'a'; size = pos 258 }

abbrev message : Bytes
message =
    codes "stopan.recipe.v1"
    ++ 0 ∷ 0 ∷ 0 ∷ 0 ∷ 1 ∷ (replicate 32 0xaa ++ 0 ∷ 0 ∷ 0 ∷ 0 ∷ 0 ∷ 0 ∷ 1 ∷ 2 ∷ [])

message_run : recipe_message (chunk_at (pos 1) ∷ []) ≡ ok message
unfolding recipe_message
message_run = refl

order_too_large : recipe_message (chunk_at (pos (2 ^ 32)) ∷ []) ≡ err overflow
unfolding recipe_message
order_too_large = refl

negative_order : recipe_message (chunk_at (negsuc 0) ∷ []) ≡ err overflow
unfolding recipe_message
negative_order = refl

recipe_message-inj_example : (chunk_at (pos 1) ∷ []) ≡ chunk_at (pos 1) ∷ []
unfolding is_valid_blake3_hex
recipe_message-inj_example =
    recipe_message-inj (chunk_at (pos 1) ∷ []) (chunk_at (pos 1) ∷ []) message (refl, tt) (refl, tt)
      message_run message_run
