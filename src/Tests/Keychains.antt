-- ===== src/Tests/Keychains.antt =====
-- A keychain that is an association list from accounts to passwords, with an encoding of identities
-- and devices as bytes in the place of JSON.
use talka.Prelude.{
  ℕ, zero, suc, ◌≡◌, refl, true, ap, ◌∙◌, sym, subst, Option, none, some, List, [], ◌∷◌, ◌++◌,
  arith, inl, inr, Option-cases, length, take, drop,
}
use talka.Prelude.Bytes.{
  Bytes, AllBytes, codes, bytes_eq_refl, take-length-append, drop-length-append,
}
use talka.Prelude.Dict.{lookup, insert, delete, lookup-insert, lookup-delete}
use talka.Pairing.{LocalIdentity, TrustedDevice, Storable, StoreLaws}
use talka.Pairing.Keychain.{Output, Keychain, darwin_store, is_keychain_not_found}
use talka.Pairing.Keychain.Laws.{KeychainLaws, darwin_store-StoreLaws}

abbrev Passwords : Type 0
Passwords = List (Bytes × Bytes)

abbrev not_found : Output
not_found = record { text = []; error = some (codes "could not be found") }

abbrev printed : Option Bytes → Output
printed none = not_found
printed (some password) = record { text = password ++ 10 ∷ []; error = none }

abbrev deleted : Bytes → Option Bytes → Passwords → Passwords × Output
deleted account none k = (k, not_found)
deleted account (some password) k = (delete account k, record { text = []; error = none })

abbrev security : List Bytes → Passwords → Passwords × Output
security (c ∷ a ∷ account ∷ s ∷ service ∷ []) k = deleted account (lookup account k) k
security (c ∷ a ∷ account ∷ s ∷ service ∷ w ∷ []) k = (k, printed (lookup account k))
security (c ∷ a ∷ account ∷ s ∷ service ∷ w ∷ encoded ∷ rest) k =
    (insert account encoded k, record { text = []; error = none })
security other k = (k, not_found)

-- A number is as many ones as it says and a zero; a list is its length and its elements.
abbrev unary : ℕ → Bytes → Bytes
unary zero rest = 0 ∷ rest
unary (suc n) rest = 1 ∷ unary n rest

abbrev written : List ℕ → Bytes
written [] = []
written (n ∷ ns) = unary n (written ns)

abbrev one_more : List ℕ → List ℕ
one_more [] = []
one_more (n ∷ ns) = suc n ∷ ns

abbrev numbers : Bytes → List ℕ
numbers [] = []
numbers (zero ∷ bs) = 0 ∷ numbers bs
numbers (suc b ∷ bs) = one_more (numbers bs)

numbers-unary : (n : ℕ) (rest : Bytes) → numbers (unary n rest) ≡ n ∷ numbers rest
numbers-unary zero rest = refl
numbers-unary (suc n) rest = ap one_more (numbers-unary n rest)

numbers-written : (ns : List ℕ) → numbers (written ns) ≡ ns
numbers-written [] = refl
numbers-written (n ∷ ns) = numbers-unary n (written ns) ∙ ap (λ xs. n ∷ xs) (numbers-written ns)

unary-AllBytes : (n : ℕ) (rest : Bytes) → AllBytes rest → AllBytes (unary n rest)
unary-AllBytes zero rest h = (omega arith, h)
unary-AllBytes (suc n) rest h = (omega arith, unary-AllBytes n rest h)

written-AllBytes : (ns : List ℕ) → AllBytes (written ns)
written-AllBytes [] = tt
written-AllBytes (n ∷ ns) = unary-AllBytes n (written ns) (written-AllBytes ns)

abbrev sized : Bytes → List ℕ → List ℕ
sized bs rest = length bs ∷ bs ++ rest

-- What is read of a sized list, and what is left.
abbrev cut : List ℕ → Bytes × List ℕ
cut [] = ([], [])
cut (n ∷ ns) = (take n ns, drop n ns)

abbrev identity_numbers : LocalIdentity → List ℕ
identity_numbers i = sized i.private_key (sized i.public_key [])

abbrev identity_of : List ℕ → LocalIdentity
identity_of ns =
    let (private_key, rest) = cut ns in
    record { private_key = private_key; public_key = (cut rest).0 }

identity_of-numbers : (i : LocalIdentity) → identity_of (identity_numbers i) ≡ i
identity_of-numbers i =
    let public = sized i.public_key [] in
    ground (
      arith,
      take-length-append i.private_key public,
      drop-length-append i.private_key public,
      take-length-append i.public_key [],
    )

abbrev device_numbers : TrustedDevice → List ℕ
device_numbers d =
    sized d.device_id
      (sized d.device_name (sized d.identity_public_key (d.paired_at ∷ d.last_seen_at ∷ [])))

abbrev with_times : Bytes → Bytes → Bytes → List ℕ → Option TrustedDevice
with_times id name key (paired ∷ seen ∷ []) = some (record {
  device_id = id;
  device_name = name;
  identity_public_key = key;
  paired_at = paired;
  last_seen_at = seen;
})
with_times id name key other = none

abbrev device_of : List ℕ → Option TrustedDevice
device_of ns =
    let (id, named) = cut ns in
    let (name, keyed) = cut named in let (key, times) = cut keyed in with_times id name key times

device_of-numbers : (d : TrustedDevice) → device_of (device_numbers d) ≡ some d
device_of-numbers d =
    let times = d.paired_at ∷ d.last_seen_at ∷ [] in
    let keyed = sized d.identity_public_key times in
    let named = sized d.device_name keyed in
    ground (
      arith,
      take-length-append d.device_id named,
      drop-length-append d.device_id named,
      take-length-append d.device_name keyed,
      drop-length-append d.device_name keyed,
      take-length-append d.identity_public_key times,
      drop-length-append d.identity_public_key times,
    )

abbrev keychain : Keychain Passwords
keychain = record {
  runner = security;
  marshal_identity = λ i. some (written (identity_numbers i));
  marshal_device = λ d. some (written (device_numbers d));
  unmarshal_identity = λ p. some (identity_of (numbers p));
  unmarshal_device = λ p. device_of (numbers p);
}

same_bytes : (a b : Bytes) → some a ≡ some b → a ≡ b
same_bytes a b h = cc

bytes_of : (ns : List ℕ) (p : Bytes) → some (written ns) ≡ some p → AllBytes p
bytes_of ns p h = subst AllBytes (same_bytes (written ns) p h) (written-AllBytes ns)

read_back : (ns : List ℕ) (p : Bytes) → some (written ns) ≡ some p → numbers p ≡ ns
read_back ns p h = ap numbers (sym (same_bytes (written ns) p h)) ∙ numbers-written ns

not_found_is_said : is_keychain_not_found not_found ≡ true
unfolding is_keychain_not_found
not_found_is_said = refl

keychain_laws : KeychainLaws keychain
keychain_laws = record {
  finds_added = λ account encoded k h.
      ground (arith, lookup-insert account account encoded k, bytes_eq_refl account);
  adding_keeps = λ account encoded j k h. ground (arith, lookup-insert account j encoded k, h);
  deleted_is_gone = λ account k h. elim (Option-cases (lookup account k)) [
    | inl q ↦ ground (arith, q, not_found_is_said)
    | inr (p, q) ↦
        ground (arith, q, lookup-delete account account k, bytes_eq_refl account, not_found_is_said)
  ];
  deleting_keeps = λ account j k h. elim (Option-cases (lookup account k)) [
    | inl q ↦ ground (arith, q)
    | inr (p, q) ↦ ground (arith, q, lookup-delete account j k, h)
  ];
  identity_bytes = λ i p h. bytes_of (identity_numbers i) p h;
  device_bytes = λ d p h. bytes_of (device_numbers d) p h;
  unmarshal-marshal_identity = λ i p h.
      ap (λ ns. some (identity_of ns)) (read_back (identity_numbers i) p h)
      ∙ ap some (identity_of-numbers i);
  unmarshal-marshal_device =
      λ d p storable h. ap device_of (read_back (device_numbers d) p h) ∙ device_of-numbers d;
}

-- A device with a name that is not ASCII, and one whose name ends within a character.
abbrev named_device : Bytes → TrustedDevice
named_device name = record {
  device_id = codes "phone";
  device_name = name;
  identity_public_key = 3 ∷ [];
  paired_at = 12;
  last_seen_at = 13;
}

named-Storable : Storable (named_device (230 ∷ 136 ∷ 145 ∷ []))
named-Storable = (refl, refl)

cut_off-Storable : Storable (named_device (230 ∷ 136 ∷ [])) → ⊥
cut_off-Storable (id, name) = cc

darwin_store-StoreLaws_example : StoreLaws (darwin_store keychain)
darwin_store-StoreLaws_example = darwin_store-StoreLaws keychain keychain_laws
