-- ===== src/Rpc/Session/Methods.antt =====
-- The map of the methods, up to what `GetService` finds in it.
use mathlib.Core.Option.{is_set}
use mathlib.Core.Quot
use mathlib.Core.Quot.{Quot, Quot-set}
use libserverkit.Base.{
  ℕ, ◌≡◌, refl, sym, ap, ◌∙◌, Option, none, some, List, [], ◌∷◌, ◌==◌, arith, Bool, true, false,
  Bool-cases, inl, inr, if◌then◌else◌, ◌>>=◌,
}
use libserverkit.Rpc.Session.{RpcMeta, MethodMetaMap, get_service, register, unless_there}
use libserverkit.Rpc.Session.Register.{meta_of}

-- Two maps in which the same methods are found
abbrev pub SameMethods : MethodMetaMap → MethodMetaMap → Type 0
SameMethods m n = (k : ℕ) → get_service k m ≡ get_service k n

abbrev pub Methods : Type 0
Methods = Quot SameMethods

abbrev pub methods_in : Option MethodMetaMap → Option Methods
methods_in none = none
methods_in (some m) = some (Quot.mk m)

-- One round of the loop of `Register`
abbrev unless_found : Option RpcMeta → Methods → Option Methods
unless_found none a = some a
unless_found (some x) a = none

put_in : ℕ → RpcMeta → MethodMetaMap → Option Methods
put_in k x m = unless_found (get_service k m) (Quot.mk ((k, x) ∷ m))

SameMethods-cons :
    (k : ℕ) (x : RpcMeta) (m n : MethodMetaMap)
    → SameMethods m n
    → SameMethods ((k, x) ∷ m) ((k, x) ∷ n)
unfolding get_service
SameMethods-cons k x m n h j = ap (λ o. if j == k then some x else o) (h j)

put_in-SameMethods :
    (k : ℕ) (x : RpcMeta) (m n : MethodMetaMap) → SameMethods m n → put_in k x m ≡ put_in k x n
unfolding put_in
put_in-SameMethods k x m n h =
    ap (λ o. unless_found o (Quot.mk ((k, x) ∷ m))) (h k)
    ∙ ap (unless_found (get_service k n)) (Quot.sound (SameMethods-cons k x m n h))

put : ℕ → RpcMeta → Methods → Option Methods
put k x = Quot.lift (is_set Quot-set) (put_in k x) (put_in-SameMethods k x)

SameMethods-swap :
    (k j : ℕ) (x y : RpcMeta) (m : MethodMetaMap)
    → (k == j) ≡ false
    → SameMethods ((j, y) ∷ (k, x) ∷ m) ((k, x) ∷ (j, y) ∷ m)
unfolding get_service
SameMethods-swap k j x y m ne i = ground arith

-- Two rounds, by what is found for the two hashes
two_puts : Bool → Option RpcMeta → Option RpcMeta → RpcMeta → Methods → Option Methods
two_puts same (some z) o x a = none
two_puts same none o x a = unless_found (if same then some x else o) a

two_puts_lem :
    (k j : ℕ) (x y : RpcMeta) (m : MethodMetaMap) (p : Option RpcMeta)
    → get_service k m ≡ p
    → (put_in k x m >>= put j y)
      ≡ two_puts (j == k) p (get_service j m) x (Quot.mk ((j, y) ∷ (k, x) ∷ m))
unfolding put put_in get_service two_puts
two_puts_lem k j x y m none e = rw e refl
two_puts_lem k j x y m (some z) e = rw e refl

two_puts-apart :
    (p o : Option RpcMeta) (x y : RpcMeta) (a b : Methods)
    → a ≡ b
    → two_puts false p o x a ≡ two_puts false o p y b
unfolding two_puts
two_puts-apart none none x y a b e = ap some e
two_puts-apart none (some z) x y a b e = refl
two_puts-apart (some z) none x y a b e = refl
two_puts-apart (some z) (some w) x y a b e = refl

two_puts-same : (p o : Option RpcMeta) (x : RpcMeta) (a : Methods) → two_puts true p o x a ≡ none
unfolding two_puts
two_puts-same none o x a = refl
two_puts-same (some z) o x a = refl

put_swap :
    (k j : ℕ) (x y : RpcMeta) (m : MethodMetaMap)
    → (put_in k x m >>= put j y) ≡ (put_in j y m >>= put k x)
put_swap k j x y m = two_puts_lem k j x y m _ refl ∙ either ∙ sym (two_puts_lem j k y x m _ refl)
  where
    p : Option RpcMeta
    p = get_service k m

    o : Option RpcMeta
    o = get_service j m

    a : Methods
    a = Quot.mk ((j, y) ∷ (k, x) ∷ m)

    b : Methods
    b = Quot.mk ((k, x) ∷ (j, y) ∷ m)

    either : two_puts (j == k) p o x a ≡ two_puts (k == j) o p y b
    either = elim (Bool-cases (k == j)) [
      | inl e ↦
          let e' : (j == k) ≡ true = ground arith in
          rw (e, e') (two_puts-same p o x a ∙ sym (two_puts-same o p y b))
      | inr e ↦
          let e' : (j == k) ≡ false = ground arith in
          rw (e, e') (two_puts-apart p o x y a b (Quot.sound (SameMethods-swap k j x y m e)))
    ]

put_comm :
    (k j : ℕ) (x y : RpcMeta) (a : Methods) → (put k x a >>= put j y) ≡ (put j y a >>= put k x)
unfolding put
put_comm k j x y = Quot.ind (λ a. is_set Quot-set _ _) (put_swap k j x y)

>>=_assoc :
    {A B C : Type 0} (o : Option A) (f : A → Option B) (g : B → Option C)
    → (o >>= f >>= g) ≡ (o >>= λ a. f a >>= g)
>>=_assoc none f g = refl
>>=_assoc (some a) f g = refl

>>=_ext :
    {A B : Type 0} (o : Option A) (f g : A → Option B)
    → ((a : A) → f a ≡ g a)
    → (o >>= f) ≡ (o >>= g)
>>=_ext none f g h = refl
>>=_ext (some a) f g h = h a

>>=_unit : {A : Type 0} (o : Option A) → (o >>= λ a. some a) ≡ o
>>=_unit none = refl
>>=_unit (some a) = refl

module _ (hash : ℕ → ℕ) where
  -- `Register`, on what can be found
  put_all : ℕ → List ℕ → Methods → Option Methods
  put_all service [] a = some a
  put_all service (method ∷ ms) a =
      put (hash method) (meta_of hash service method) a >>= put_all service ms

  put_all_one :
      (service k : ℕ) (x : RpcMeta) (ms : List ℕ) (a : Methods)
      → (put_all service ms a >>= put k x) ≡ (put k x a >>= put_all service ms)
  unfolding put_all
  put_all_one service k x [] a =
      sym
        (>>=_ext (put k x a) (put_all service []) (λ b. some b) (λ b. refl) ∙ >>=_unit (put k x a))
  put_all_one service k x (method ∷ ms) a =
      let first = put (hash method) (meta_of hash service method) in
      >>=_assoc (first a) (put_all service ms) (put k x)
      ∙ >>=_ext (first a) _ _ (put_all_one service k x ms)
      ∙ sym (>>=_assoc (first a) (put k x) (put_all service ms))
      ∙ ap (λ o. o >>= put_all service ms) (put_comm _ _ _ _ a)
      ∙ >>=_assoc (put k x a) first (put_all service ms)

  put_all_comm :
      (s t : ℕ) (ms ns : List ℕ) (a : Methods)
      → (put_all s ms a >>= put_all t ns) ≡ (put_all t ns a >>= put_all s ms)
  unfolding put_all
  put_all_comm s t ms [] a =
      >>=_ext (put_all s ms a) (put_all t []) (λ b. some b) (λ b. refl) ∙ >>=_unit (put_all s ms a)
  put_all_comm s t ms (method ∷ ns) a =
      let first = put (hash method) (meta_of hash t method) in
      sym (>>=_assoc (put_all s ms a) first (put_all t ns))
      ∙ ap (λ o. o >>= put_all t ns) (put_all_one s _ _ ms a)
      ∙ >>=_assoc (first a) (put_all s ms) (put_all t ns)
      ∙ >>=_ext (first a) _ _ (put_all_comm s t ms ns)
      ∙ sym (>>=_assoc (first a) (put_all t ns) (put_all s ms))

  put_all_refines :
      (service : ℕ) (ms : List ℕ) (m : MethodMetaMap)
      → methods_in (register hash service ms m) ≡ put_all service ms (Quot.mk m)
  unfolding register put_all put put_in
  put_all_refines service [] m = refl
  put_all_refines service (method ∷ ms) m =
      by_found _ _ (get_service (hash method) m) (put_all_refines service ms _)
    where
      by_found :
          (rest : Option MethodMetaMap) (a : Methods) (o : Option RpcMeta)
          → methods_in rest ≡ put_all service ms a
          → methods_in (unless_there o rest) ≡ (unless_found o a >>= put_all service ms)
      by_found rest a none e = e
      by_found rest a (some x) e = refl

  put_all_after :
      (service : ℕ) (ms : List ℕ) (o : Option MethodMetaMap)
      → methods_in (o >>= register hash service ms) ≡ (methods_in o >>= put_all service ms)
  put_all_after service ms none = refl
  put_all_after service ms (some m) = put_all_refines service ms m

  -- Two services may be registered in either order, whatever is registered before: both orders pass
  -- the assertions or none does, and the two maps are one as far as `GetService` can tell.
  pub register_comm :
      (s t : ℕ) (ms ns : List ℕ) (m : MethodMetaMap)
      → methods_in (register hash s ms m >>= register hash t ns)
        ≡ methods_in (register hash t ns m >>= register hash s ms)
  register_comm s t ms ns m =
      put_all_after t ns (register hash s ms m)
      ∙ ap (λ o. o >>= put_all t ns) (put_all_refines s ms m)
      ∙ put_all_comm s t ms ns (Quot.mk m)
      ∙ sym (ap (λ o. o >>= put_all s ms) (put_all_refines t ns m))
      ∙ sym (put_all_after s ms (register hash t ns m))
