-- ===== src/Policy/Wrap.antt =====
-- The wrapping of untrusted text: what is taken out of it, and what is left.
use kb_concierge.Prelude.{
  ℕ, zero, suc, ◌≤◌, ◌==◌, ◌≡◌, refl, false, [], ◌∷◌, ◌++◌, arith, Codes, occurs,
}
use kb_concierge.Policy.Guardrails.{remove_from, delim, newline, wrap_untrusted}

remove_from-unchanged :
    (p : Codes) (n : ℕ) (t : Codes) → occurs p t ≡ false → remove_from p n 0 t ≡ t
unfolding remove_from
remove_from-unchanged p n [] h = refl
remove_from-unchanged p n (c ∷ t) h = ground (arith, remove_from-unchanged p n t)

-- A text without the delimiter is passed on whole, between two delimiters.
pub wrap_untrusted-plain :
    (t : Codes)
    → occurs delim t ≡ false
    → wrap_untrusted t ≡ delim ++ (newline ++ (t ++ (newline ++ delim)))
unfolding wrap_untrusted
wrap_untrusted-plain t h = rw (remove_from-unchanged delim 14 t h) refl

abbrev pub take : ℕ → Codes → Codes
take zero t = []
take (suc n) [] = []
take (suc n) (c ∷ t) = c ∷ take n t

abbrev pub drop : ℕ → Codes → Codes
drop zero t = t
drop (suc n) [] = []
drop (suc n) (c ∷ t) = drop n t

-- The first `n` characters of the delimiter, a whole one, and the rest of the first.
abbrev pub nested : ℕ → Codes → Codes
nested n rest = take n delim ++ (delim ++ (drop n delim ++ rest))

nested-whole :
    (n : ℕ) (rest : Codes)
    → 1 ≤ n
    → n ≤ 14
    → remove_from delim 14 0 (nested n rest) ≡ delim ++ remove_from delim 14 0 rest
unfolding remove_from
nested-whole zero rest low high = absurd (omega (arith, low))
nested-whole (suc zero) rest low high = refl
nested-whole (suc (suc zero)) rest low high = refl
nested-whole (suc (suc (suc zero))) rest low high = refl
nested-whole (suc (suc (suc (suc zero)))) rest low high = refl
nested-whole (suc (suc (suc (suc (suc zero))))) rest low high = refl
nested-whole (suc (suc (suc (suc (suc (suc zero)))))) rest low high = refl
nested-whole (suc (suc (suc (suc (suc (suc (suc zero))))))) rest low high = refl
nested-whole (suc (suc (suc (suc (suc (suc (suc (suc zero)))))))) rest low high = refl
nested-whole (suc (suc (suc (suc (suc (suc (suc (suc (suc zero))))))))) rest low high = refl
nested-whole (suc (suc (suc (suc (suc (suc (suc (suc (suc (suc zero)))))))))) rest low high = refl
nested-whole (suc (suc (suc (suc (suc (suc (suc (suc (suc (suc (suc zero))))))))))) rest low high =
    refl
nested-whole (suc (suc (suc (suc (suc (suc (suc (suc (suc (suc (suc (suc zero)))))))))))) rest low
      high =
    refl
nested-whole (suc (suc (suc (suc (suc (suc (suc (suc (suc (suc (suc (suc (suc zero))))))))))))) rest
      low high =
    refl
nested-whole
      (suc (suc (suc (suc (suc (suc (suc (suc (suc (suc (suc (suc (suc (suc zero)))))))))))))) rest
      low high =
    refl
nested-whole
      (suc (suc (suc (suc (suc (suc (suc (suc (suc (suc (suc (suc (suc (suc (suc n)))))))))))))))
      rest low high =
    absurd (omega (arith, high))

-- The character `<` is not in the text.
abbrev pub HasNoBracket : Codes → Type 0
HasNoBracket [] = Unit
HasNoBracket (c ∷ t) = ((c == 60) ≡ false) × HasNoBracket t

remove_from-before :
    (before t : Codes)
    → HasNoBracket before
    → remove_from delim 14 0 (before ++ t) ≡ before ++ remove_from delim 14 0 t
unfolding remove_from
remove_from-before [] t h = refl
remove_from-before (c ∷ before) t h = ground (arith, h.0, remove_from-before before t h.1)

-- A delimiter that is split anywhere by another delimiter, after a text without `<` and before any
-- text, is whole in the wrapped text: the pass takes the inner one out, and there is no second
-- pass.
pub wrap_untrusted-nested :
    (n : ℕ) (before rest : Codes)
    → 1 ≤ n
    → n ≤ 14
    → HasNoBracket before
    → wrap_untrusted (before ++ nested n rest)
      ≡ delim
        ++ (newline ++ ((before ++ (delim ++ remove_from delim 14 0 rest)) ++ (newline ++ delim)))
unfolding wrap_untrusted
wrap_untrusted-nested n before rest low high h =
    rw (remove_from-before before (nested n rest) h) (rw (nested-whole n rest low high) refl)
