-- ===== src/Idempotent/Tests.antt =====
-- Tests of the idempotency cache, and its theorems at concrete inputs.
use yunmao.Base.{◌≡◌, refl, true, false, pos, lookup, insert, erase, add_time}
use yunmao.Idempotent.{Cache, new_cache, insert_key, has}
use yunmao.Idempotent.Invariant.{Inv, insert_key-Inv, new_cache-Inv}

abbrev small : Cache
small = new_cache (pos 2) (pos 100)

-- The third key pushes out the first.
evicts_oldest :
    let c = (insert_key (insert_key (insert_key small "a" 1).0 "b" 2).0 "c" 3).0 in
    (has c "a" 4 ≡ false) × (has c "b" 4 ≡ true) × (has c "c" 4 ≡ true)
unfolding insert_key has new_cache lookup insert erase add_time
evicts_oldest = (refl, refl, refl)

insert_key-Inv_example : Inv (insert_key small "a" 1).0
insert_key-Inv_example = insert_key-Inv small "a" 1 (new_cache-Inv (pos 2) (pos 100))
