-- ===== src/Arguments/Items.antt =====
-- The loop against a list of items.
use Prim.Native.String.{String}
use kernel_net.Prelude.{
  ◌≡◌, refl, ap, subst, Bool, true, false, if◌then◌else◌, ◌∙◌, ◌⊎◌, inl, inr, List, [], ◌∷◌, ◌++◌,
  Option, none, some, ◌>>=◌, Option-cases,
}
use kernel_net.Arguments.{Kind, sets, help, skipped, Parsed, threw, parsed, parse_last, parse_loop}

-- What a user writes: a flag with its value, or a text that is no flag.
pub data Item : Type 0 where
  given : (name value : String) → Item
  plain : (text : String) → Item

unfoldable pub render : List Item → List String
render [] = []
render (given name value ∷ items) = name ∷ value ∷ render items
render (plain text ∷ items) = text ∷ render items

module _ {O : Type 0} where
  abbrev pub apply_kind : Kind O → String → O → Option O
  apply_kind (sets f) value o = f value o
  apply_kind _ value o = some o

  abbrev pub outcome : Option O → Parsed O
  outcome none = threw
  outcome (some o) = parsed o

  abbrev pub Holds : (O → Type 0) → Parsed O → Type 0
  Holds P (parsed o) = P o
  Holds P _ = Unit

  -- A flag that can be set only to what `P` holds of.
  abbrev pub Keeps : (O → Type 0) → Kind O → Type 0
  Keeps P (sets f) = (value : String) (o changed : O) → f value o ≡ some changed → P o → P changed
  Keeps P _ = Unit

  pub if-Keeps :
      (P : O → Type 0) (b : Bool) (k l : Kind O)
      → Keeps P k
      → Keeps P l
      → Keeps P (if b then k else l)
  if-Keeps P true k l p q = p
  if-Keeps P false k l p q = q

  Kind-cases :
      (k : Kind O) → ((f : String → O → Option O) × (k ≡ sets f)) ⊎ ((k ≡ help) ⊎ (k ≡ skipped))
  Kind-cases (sets f) = inl (f, refl)
  Kind-cases help = inr (inl refl)
  Kind-cases skipped = inr (inr refl)

  module _ (kind : String → Kind O) where
    abbrev pub Fits : List Item → Type 0
    Fits [] = Unit
    Fits (given name value ∷ items) =
        ((f : String → O → Option O) × (kind name ≡ sets f)) × Fits items
    Fits (plain text ∷ items) = (kind text ≡ skipped) × Fits items

    -- What one item does; `none` when its number cannot be read.
    unfoldable pub set : Item → O → Option O
    set (given name value) o = apply_kind (kind name) value o
    set (plain text) o = some o

    -- The items in their order: a later value replaces an earlier one.
    unfoldable pub set_all : List Item → O → Option O
    set_all [] o = some o
    set_all (item ∷ items) o = set item o >>= set_all items

    parse_loop-skipped :
        (text : String) (rest : List String) (o : O)
        → kind text ≡ skipped
        → parse_loop kind (text ∷ rest) o ≡ parse_loop kind rest o
    unfolding parse_loop parse_last
    parse_loop-skipped text [] o ok = rw ok refl
    parse_loop-skipped text (value ∷ rest) o ok = rw (ok, parse_loop) refl

    -- The arguments that a list of items stands for set the options item by item, texts that are no
    -- flags are skipped, and the loop throws at the first number that cannot be read.
    pub parse_loop-render :
        (items : List Item) (o : O)
        → Fits items
        → parse_loop kind (render items) o ≡ outcome (set_all items o)
    unfolding parse_loop render set set_all
    parse_loop-render [] o ok = refl
    parse_loop-render (given name value ∷ items) o ((f, is_flag), ok) =
        elim (Option-cases (f value o)) [
          | inl bad ↦ rw (is_flag, bad, parse_loop) refl
          | inr (changed, good) ↦
              rw (is_flag, good, parse_loop) (parse_loop-render items changed ok)
        ]
    parse_loop-render (plain text ∷ items) o (ok, others) =
        parse_loop-skipped text (render items) o ok ∙ parse_loop-render items o others

    pub set_all-append :
        (xs ys : List Item) (o : O) → set_all (xs ++ ys) o ≡ (set_all xs o >>= set_all ys)
    unfolding set_all
    set_all-append [] ys o = refl
    set_all-append (x ∷ xs) ys o = after (set x o) (λ t. set_all-append xs ys t)
      where
        after :
            (r : Option O)
            → ((t : O) → set_all (xs ++ ys) t ≡ (set_all xs t >>= set_all ys))
            → (r >>= set_all (xs ++ ys)) ≡ ((r >>= set_all xs) >>= set_all ys)
        after none same = refl
        after (some t) same = same t

    Fits-append : (xs ys : List Item) → Fits xs → Fits ys → Fits (xs ++ ys)
    Fits-append [] ys p q = q
    Fits-append (given name value ∷ xs) ys (p, ps) q = (p, Fits-append xs ys ps q)
    Fits-append (plain text ∷ xs) ys (p, ps) q = (p, Fits-append xs ys ps q)

    -- The items that stand last decide, when they set all options alike from whatever stood before.
    pub parse_loop-append :
        (before last : List Item) (o earlier settled : O)
        → Fits before
        → Fits last
        → set_all before o ≡ some earlier
        → set_all last earlier ≡ some settled
        → parse_loop kind (render (before ++ last)) o ≡ parsed settled
    parse_loop-append before last o earlier settled fits fits_last set_before set_last =
        parse_loop-render (before ++ last) o (Fits-append before last fits fits_last)
        ∙ ap outcome
            (set_all-append before last o ∙ ap (λ r. r >>= set_all last) set_before ∙ set_last)

    parse_last-Holds : (P : O → Type 0) (k : Kind O) (o : O) → P o → Holds P (parse_last k o)
    unfolding parse_last
    parse_last-Holds P (sets f) o p = p
    parse_last-Holds P help o p = tt
    parse_last-Holds P skipped o p = p

    -- What every flag keeps holds of the options that the loop gives, whatever the arguments.
    pub parse_loop-Holds :
        (P : O → Type 0)
        → ((name : String) → Keeps P (kind name))
        → (argv : List String) (o : O) → P o
        → Holds P (parse_loop kind argv o)
    unfolding parse_loop
    parse_loop-Holds P keeps [] o p = p
    parse_loop-Holds P keeps (arg ∷ []) o p = parse_last-Holds P (kind arg) o p
    parse_loop-Holds P keeps (arg ∷ value ∷ rest) o p = elim (Kind-cases (kind arg)) [
      | inl (f, is_flag) ↦ elim (Option-cases (f value o)) [
        | inl bad ↦ rw (is_flag, bad, parse_loop) tt
        | inr (changed, good) ↦
            rw (is_flag, good, parse_loop)
              (parse_loop-Holds P keeps rest changed
                (subst (Keeps P) is_flag (keeps arg) value o changed good p))
      ]
      | inr (inl is_help) ↦ rw (is_help, parse_loop) tt
      | inr (inr is_skipped) ↦
          rw (is_skipped, parse_loop) (parse_loop-Holds P keeps (value ∷ rest) o p)
    ]
