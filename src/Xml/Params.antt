-- ===== src/Xml/Params.antt =====
-- src/core/sp_xml.cpp, `spXmlParams`: names and values for a template.
use evcp.Base.{
  ℕ, ◌+◌, ◌*◌, ◌≡◌, refl, [], ◌∷◌, ◌++◌, List, Bool, true, false, Bytes, length, take, ltb, leb,
  ◌==◌, if◌then◌else◌,
}

-- `_size` and `len`, the pointers that there is memory for, and the pairs that are stored; those from before are
-- lost whenever `realloc(NULL, …)` gives new memory.
pub record Params : Type 0 where
  pub size : ℕ
  pub len : ℕ
  pub room : ℕ
  pub pairs : List (Bytes × Bytes)

-- How `resize` and `add` end: without memory; with a write in front of the memory; with a write behind it, or a read
-- behind the name; or well.
pub data Stored : Type 0 where
  no_memory stored : Params → Stored
  before_start behind_end : Stored

-- `spXmlParams()`
abbrev pub empty_params : Params
empty_params = record { size = 0; len = 0; room = 1; pairs = [] }

-- `resize(n)` for a number above 0, with `memset(_data+_size-n*2, …)`
unfoldable pub resize : Bool → ℕ → Params → Stored
resize memory n p =
    let size = p.size + n in
    if memory
    then if ltb size (n * 2)
      then before_start
      else stored (record p { size = size; room = (size * 2 + 1) * 10; pairs = [] })
    else no_memory (record p { size = size })

-- The writes of `add`; `memcpy(_data[len*2+1],k,strlen(v))` reads `k`, with its NUL.
unfoldable pub put : Bytes → Bytes → Params → Stored
put k v p =
    if leb p.room (p.len * 2 + 2)
    then behind_end
    else if ltb (length k + 1) (length v)
    then behind_end
    else stored
        (record p { len = p.len + 1; pairs = p.pairs ++ (k, take (length v) (k ++ 0 ∷ [])) ∷ [] })

-- `add`
unfoldable pub add : Bool → Bytes → Bytes → Params → Stored
unfolding resize put
add memory k v p =
    if p.size == p.len
    then elim (resize memory 10 p) [
      | stored q ↦ put k v q
      | no_memory q ↦ no_memory q
      | before_start ↦ before_start
      | behind_end ↦ behind_end
    ]
    else put k v p

-- No pair is ever stored in new parameters: with memory at hand the first call clears pointers in front of its
-- memory, and without it the second one writes behind the memory that there is.
pub add-first :
    (k v k' v' : Bytes) (memory : Bool)
    → (add true k v empty_params ≡ before_start)
      × ((q : Params) × ((add false k v empty_params ≡ no_memory q)
            × (add memory k' v' q ≡ behind_end)))
unfolding add
add-first k v k' v' memory = (refl, (record empty_params { size = 10 }, (refl, refl)))
