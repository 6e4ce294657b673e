-- ===== src/DeviceStore/Tests.antt =====
-- Tests of the in-process device store.
use yunmao.Base.{◌≡◌, refl, length, pos, lookup, insert, fails}
use yunmao.DeviceStore.{
  Device, ListFilter, MemoryStore, demo_device, new_memory_store, create, list, not_found, update,
}

abbrev second_device : Device
second_device = record (demo_device 7) { id = "dev_2"; owner_id = "usr_2" }

abbrev two : MemoryStore
two = (create second_device 8 (new_memory_store 7)).1

abbrev everything : ListFilter
everything = record {
  owner_id = "";
  room_id = "";
  region_id = "";
  status = "";
  limit = pos 0;
  offset = pos 0;
}

listed_all : length (list everything two) ≡ 2
unfolding list create new_memory_store insert
listed_all = refl

-- The offset plays no part.
offset_ignored : length (list (record everything { offset = pos 5; limit = pos 1 }) two) ≡ 1
unfolding list create new_memory_store insert
offset_ignored = refl

listed_owner : length (list (record everything { owner_id = "usr_2" }) two) ≡ 1
unfolding list create new_memory_store insert
listed_owner = refl

missing : update (record second_device { id = "dev_3" }) 9 two ≡ (fails not_found, two)
unfolding update create new_memory_store insert lookup
missing = refl

-- A second Create of a number replaces the device.
created_twice :
    (create (record second_device { owner_id = "usr_3" }) 9 two).1
    ≡ (create (record second_device { owner_id = "usr_3" }) 9 (new_memory_store 7)).1
unfolding create new_memory_store insert
created_twice = refl
