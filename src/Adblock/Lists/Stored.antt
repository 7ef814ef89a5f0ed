-- ===== src/Adblock/Lists/Stored.antt =====
-- A list is read back as it was stored.
use ad_block.Base.{
  ◌≡◌, refl, ap, ◌∙◌, arith, Bool, true, false, [], ◌∷◌, ◌++◌, none, some, any, ◌==◌, ==_refl,
  if◌then◌else◌,
}
use ad_block.Adblock.Lists.{
  newline, disabled_mark, header, read_source, read_mark, source_line, entry_of, entry_below,
  entry_from_text,
}
use ad_block.Text.{Text, codes, is_char, strip_prefix, split_once}

strip_prefix-append : (p s : Text) → strip_prefix p (p ++ s) ≡ some s
unfolding strip_prefix
strip_prefix-append [] s = refl
strip_prefix-append (c ∷ p) s = rw (==_refl c) (strip_prefix-append p s)

append_assoc : (a b c : Text) → (a ++ b) ++ c ≡ a ++ (b ++ c)
append_assoc [] b c = refl
append_assoc (x ∷ a) b c = ap (◌∷◌ x) (append_assoc a b c)

split_once-append :
    (s t : Text)
    → any (is_char newline) s ≡ false
    → split_once (is_char newline) (s ++ (newline ∷ t)) ≡ some (s, t)
unfolding split_once
split_once-append [] t h = refl
split_once-append (c ∷ s) t h =
    let not_here : (c == newline) ≡ false = ground arith in
    rw (not_here, split_once-append s t (ground arith)) refl

-- A list that is stored below its header is read back with its source, its switch and its text, if
-- the source has no line break and, when the list is switched on, the text does not begin with the
-- line that marks a list as switched off.
pub entry_from_text-header :
    (fallback_name fallback_source source text : Text) (enabled : Bool)
    → any (is_char newline) source ≡ false
    → ((enabled ≡ true) → strip_prefix disabled_mark text ≡ none)
    → entry_from_text fallback_name fallback_source (header source enabled ++ text)
      ≡ entry_of fallback_name source (enabled, text)
unfolding entry_from_text entry_below header
entry_from_text-header fallback_name fallback_source source text enabled h k =
    ap
      (λ o.
        entry_below fallback_name (read_source fallback_source (header source enabled ++ text) o))
      stripped
    ∙ ap (λ o. entry_below fallback_name (source_line (source ++ (newline ∷ (mark ++ text))) o))
        (split_once-append source (mark ++ text) h)
    ∙ ap (entry_of fallback_name source) (marked enabled k)
  where
    mark_of : Bool → Text
    mark_of b = if b then [] else disabled_mark

    mark : Text
    mark = mark_of enabled

    stripped :
        strip_prefix (codes "! source: ") (header source enabled ++ text)
        ≡ some (source ++ (newline ∷ (mark ++ text)))
    stripped =
        ap (strip_prefix (codes "! source: ")) (
          append_assoc (codes "! source: ") (source ++ (newline ∷ mark)) text
          ∙ ap (λ u. codes "! source: " ++ u) (append_assoc source (newline ∷ mark) text))
        ∙ strip_prefix-append (codes "! source: ") (source ++ (newline ∷ (mark ++ text)))

    marked :
        (b : Bool)
        → ((b ≡ true) → strip_prefix disabled_mark text ≡ none)
        → read_mark (mark_of b ++ text) (strip_prefix disabled_mark (mark_of b ++ text)) ≡ (b, text)
    marked true k = ap (read_mark text) (k refl)
    marked false k = ap (read_mark (disabled_mark ++ text)) (strip_prefix-append disabled_mark text)
