-- ===== src/Value/Reorder.antt =====
-- Values that Python compares equal since `dict` equality forgets the order of members.
use scitt_payload_binding.Common.{◌≡◌, false, Text, text_eq}
use scitt_payload_binding.Value.{Value, Items, Fields, arr, obj, no_items, item, no_fields, field}

mutual
  -- the same value, up to the order of the members of every object in it
  pub data Same : Value → Value → Type 0 where
    itself : {v : Value} → Same v v
    arrays : {xs ys : Items} → SameItems xs ys → Same (arr xs) (arr ys)
    objects : {fs gs : Fields} → SameFields fs gs → Same (obj fs) (obj gs)

  pub data SameItems : Items → Items → Type 0 where
    same_end : SameItems no_items no_items
    same_item :
        {v w : Value} {xs ys : Items}
        → Same v w
        → SameItems xs ys
        → SameItems (item v xs) (item w ys)

  -- members of different keys change places
  pub data SameFields : Fields → Fields → Type 0 where
    same_none : SameFields no_fields no_fields
    same_field :
        {k : Text} {v w : Value} {fs gs : Fields}
        → Same v w
        → SameFields fs gs
        → SameFields (field k v fs) (field k w gs)
    swapped :
        {j k : Text} {v w : Value} {fs : Fields}
        → text_eq j k ≡ false
        → SameFields (field j v (field k w fs)) (field k w (field j v fs))
    in_turn : {fs gs hs : Fields} → SameFields fs gs → SameFields gs hs → SameFields fs hs
