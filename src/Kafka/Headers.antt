-- ===== src/Kafka/Headers.antt =====
-- kafka/instrumentation.go: the header carriers of a message that is read and of one that is
-- written. Keys and values are texts. The headers of a carrier are shared with the message: what Set
-- changes is the message's list.
use Prim.Native.Char.{Char}
use lunaship.Base.{
  String, false, List, [], ◌∷◌, ◌≡◌, refl, if◌then◌else◌, arith, map, All, eq_iff, ◌∙◌,
}
use lunaship.Base.Scan.{fold_text, equal_fold}

-- sarama.RecordHeader
pub record RecordHeader : Type 0 where
  pub key : String
  pub value : String

module _ (fold : Char → Char) where
  -- Get of both carriers.
  unfoldable pub get_header : List RecordHeader → String → String
  get_header [] key = ""
  get_header (h ∷ hs) key = if equal_fold fold h.key key then h.value else get_header hs key

  -- Set of the consumer's carrier: a key that is missing is not added.
  unfoldable pub set_existing : String → String → List RecordHeader → List RecordHeader
  set_existing key value [] = []
  set_existing key value (h ∷ hs) =
      let rest = set_existing key value hs in
      if equal_fold fold h.key key then record h { value = value } ∷ hs else h ∷ rest

  -- Set of the producer's carrier.
  unfoldable pub set_header : String → String → List RecordHeader → List RecordHeader
  set_header key value [] = record { key = key; value = value } ∷ []
  set_header key value (h ∷ hs) =
      let rest = set_header key value hs in
      if equal_fold fold h.key key then record h { value = value } ∷ hs else h ∷ rest

  -- The propagator's Inject: one Set for each pair.
  unfoldable pub inject_all : List (String × String) → List RecordHeader → List RecordHeader
  inject_all [] hs = hs
  inject_all ((key, value) ∷ rest) hs = inject_all rest (set_header key value hs)

-- Keys of both carriers.
unfoldable pub header_keys : List RecordHeader → List String
header_keys hs = map (λ h. h.key) hs

module _ (fold : Char → Char) where
  get_header-set :
      (key value : String) (hs : List RecordHeader)
      → get_header fold (set_header fold key value hs) key ≡ value
  unfolding get_header set_header
  get_header-set key value [] = ground (arith, eq_iff (fold_text fold key) (fold_text fold key))
  get_header-set key value (h ∷ hs) = ground (arith, get_header-set key value hs)

  get_header-set_other :
      (key value other : String) (hs : List RecordHeader)
      → equal_fold fold key other ≡ false
      → get_header fold (set_header fold key value hs) other ≡ get_header fold hs other
  unfolding get_header set_header
  get_header-set_other key value other [] differ = ground arith
  get_header-set_other key value other (h ∷ hs) differ = ground (
    arith,
    get_header-set_other key value other hs differ,
    eq_iff (fold_text fold h.key) (fold_text fold key),
    eq_iff (fold_text fold h.key) (fold_text fold other),
    eq_iff (fold_text fold key) (fold_text fold other),
  )

  -- No later pair has the key of an earlier one.
  abbrev pub AreDistinct : List (String × String) → Type 0
  AreDistinct [] = Unit
  AreDistinct (p ∷ ps) = All (λ q. equal_fold fold q.0 p.0 ≡ false) ps × AreDistinct ps

  pub get_header-inject_other :
      (ps : List (String × String)) (hs : List RecordHeader) (key : String)
      → All (λ q. equal_fold fold q.0 key ≡ false) ps
      → get_header fold (inject_all fold ps hs) key ≡ get_header fold hs key
  unfolding inject_all
  get_header-inject_other [] hs key h = refl
  get_header-inject_other ((k, v) ∷ ps) hs key h =
      get_header-inject_other ps (set_header fold k v hs) key h.1
      ∙ get_header-set_other k v key hs h.0

  -- Whatever headers the message has, each pair that is injected is read back under its key, if no
  -- two of the keys are equal up to case.
  pub inject-get_header :
      (ps : List (String × String)) (hs : List RecordHeader)
      → AreDistinct ps
      → All (λ p. get_header fold (inject_all fold ps hs) p.0 ≡ p.1) ps
  unfolding inject_all
  inject-get_header [] hs h = tt
  inject-get_header ((k, v) ∷ ps) hs h = (
    get_header-inject_other ps (set_header fold k v hs) k h.0 ∙ get_header-set k v hs,
    inject-get_header ps (set_header fold k v hs) h.1,
  )
