-- ===== src/Context/Priority.antt =====
-- The priority classes of core/context/context.go. The Go type is a string, so a request may carry
-- any text there.
use mathlib.Core.List.{Memᴰ}
use chukrun.Base.{String, List, [], ◌∷◌, subst, sym}

abbrev pub PriorityClass : Type 0
PriorityClass = String

abbrev pub critical : PriorityClass
critical = "Critical"

abbrev pub high : PriorityClass
high = "High"

abbrev pub normal : PriorityClass
normal = "Normal"

abbrev pub low : PriorityClass
low = "Low"

abbrev pub background : PriorityClass
background = "Background"

-- The five classes, the most urgent first.
abbrev pub priority_order : List PriorityClass
priority_order = critical ∷ high ∷ normal ∷ low ∷ background ∷ []

-- A statement about each class of the order is one about the five classes.
pub each_class {ℓ} :
    (P : PriorityClass → Type ℓ)
    → P critical
    → P high
    → P normal
    → P low
    → P background
    → (p : PriorityClass) → Memᴰ p priority_order
    → P p
each_class P c h n l b p (Memᴰ.head e) = subst P (sym e) c
each_class P c h n l b p (Memᴰ.tail (Memᴰ.head e)) = subst P (sym e) h
each_class P c h n l b p (Memᴰ.tail (Memᴰ.tail (Memᴰ.head e))) = subst P (sym e) n
each_class P c h n l b p (Memᴰ.tail (Memᴰ.tail (Memᴰ.tail (Memᴰ.head e)))) = subst P (sym e) l
each_class P c h n l b p (Memᴰ.tail (Memᴰ.tail (Memᴰ.tail (Memᴰ.tail (Memᴰ.head e))))) =
    subst P (sym e) b
each_class P c h n l b p (Memᴰ.tail (Memᴰ.tail (Memᴰ.tail (Memᴰ.tail (Memᴰ.tail m))))) = elim m [ ]
