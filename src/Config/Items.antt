-- ===== src/Config/Items.antt =====
-- Python's dictionaries as `Fields`: membership, assignment and deletion of a key.
use mob.Prelude.{String, ◌==◌, eq_iff, ◌≡◌, refl, Option, none, some, arith, or_else, if◌then◌else◌}
use mob.Json.{Json, Fields, end, field, field_of}

-- `d[k]`, if `k in d`
unfoldable pub item : String → Fields → Option Json
item k end = none
item k (field j v fs) = if j == k then some v else item k fs

-- `d[k] = v`
unfoldable pub put_item : String → Json → Fields → Fields
put_item k v end = field k v end
put_item k v (field j w fs) = if j == k then field j v fs else field j w (put_item k v fs)

-- `del d[k]`
unfoldable pub del_item : String → Fields → Fields
del_item k end = end
del_item k (field j w fs) = let rest = del_item k fs in if j == k then rest else field j w rest

pub item-put_item :
    (j k : String) (v : Json) (fs : Fields)
    → item j (put_item k v fs) ≡ (if k == j then some v else item j fs)
unfolding item put_item
item-put_item j k v end = refl
item-put_item j k v (field i w fs) =
    ground (arith, eq_iff k j, eq_iff i k, eq_iff i j, item-put_item j k v fs)

pub item-del_item :
    (j k : String) (fs : Fields) → item j (del_item k fs) ≡ (if k == j then none else item j fs)
unfolding item del_item
item-del_item j k end = ground arith
item-del_item j k (field i w fs) =
    ground (arith, eq_iff k j, eq_iff i k, eq_iff i j, item-del_item j k fs)

-- `d.get(k, default)`
pub field_of-item :
    (k : String) (default : Json) (fs : Fields)
    → field_of k default fs ≡ or_else (item k fs) default
unfolding field_of item
field_of-item k default end = refl
field_of-item k default (field j v fs) = ground (arith, field_of-item k default fs)
