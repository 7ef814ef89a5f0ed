-- ===== src/Proxy/Target/Ports.antt =====
-- A host and a port, written and read back.
use ad_block.Base.{ℕ, ◌<◌, ◌≡◌, refl, ap, ◌∙◌, inr, false, [], ◌∷◌, ◌++◌, none, some, arith, ◌==◌}
use ad_block.Proxy.Target.{unwrap_or, split_plain, split_host_port}
use ad_block.Net.Ports.{parse_u16, decimal, port_text, decimal_without, parse_u16-port_text}
use ad_block.Text.Laws.{rsplit_once-append}
use ad_block.Text.{Text, is_char, contains, strip_prefix, rsplit_once}

unbracketed :
    (host t : Text) (c : ℕ)
    → strip_prefix (b'[' ∷ []) host ≡ none
    → (c == b'[') ≡ false
    → strip_prefix (b'[' ∷ []) (host ++ (c ∷ t)) ≡ none
unfolding strip_prefix
unbracketed [] t c h k = ground arith
unbracketed (d ∷ host) t c h k = ground arith

-- A host without a colon that does not begin with a bracket, followed by a colon and a port below
-- 65536 in decimal, is split into that host and that port, whatever the default port.
pub split_host_port-port_text :
    (host : Text) (port default : ℕ)
    → contains b':' host ≡ false
    → strip_prefix (b'[' ∷ []) host ≡ none
    → port < 65536
    → split_host_port (host ++ (b':' ∷ port_text port)) default ≡ (host, port)
unfolding port_text
split_host_port-port_text host port default plain bare small =
    outer (host ++ (b':' ∷ decimal 5 port)) (unbracketed host (decimal 5 port) b':' bare refl)
    ∙ inner (host ++ (b':' ∷ decimal 5 port)) host (decimal 5 port)
        (rsplit_once-append (is_char b':') host b':' (decimal 5 port) refl
          (decimal_without b':' 5 port (inr (omega arith))))
        plain
    ∙ ap (λ o. (host, unwrap_or o default)) (parse_u16-port_text port small)
  where
    outer :
        (t : Text)
        → strip_prefix (b'[' ∷ []) t ≡ none
        → split_host_port t default ≡ split_plain t default
    outer t h = unfold split_host_port in rw (h, split_host_port)

    inner :
        (t h p : Text)
        → rsplit_once (is_char b':') t ≡ some (h, p)
        → contains b':' h ≡ false
        → split_plain t default ≡ (h, unwrap_or (parse_u16 p) default)
    inner t h p e f = unfold split_plain in rw (e, split_plain) (rw f)
