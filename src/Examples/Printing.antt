-- ===== src/Examples/Printing.antt =====
-- What the mixin of examples/binance_trade_feed_mixin.cpp prints.
use crypto_con.Base.{
  ℕ, suc, ◌+◌, ◌%◌, ◌^◌, ◌<◌, Bytes, codes, List, [], ◌∷◌, ◌++◌, append-nil, append_assoc, length,
  ◌≡◌, refl, ap, ◌∙◌, arith,
}
use crypto_con.Utils.Number.{decimal}
use crypto_con.Examples.{
  MessagePrinter, print_message, print_messages, stats_line, subscribing_line, mixin_lines,
}

abbrev pub numbered_line : ℕ → Bytes → Bytes
numbered_line n msg = codes "[MSG #" ++ decimal n ++ codes "] " ++ msg

-- The texts with their numbers, behind the n-th.
abbrev pub numbered : ℕ → List Bytes → List Bytes
numbered n [] = []
numbered n (msg ∷ msgs) = numbered_line (n + 1) msg ∷ numbered (n + 1) msgs

print_messages-numbered :
    (msgs : List Bytes) (n : ℕ) (before : List Bytes)
    → n + length msgs < 2 ^ 64
    → print_messages msgs (record { message_count = n; printed = before })
      ≡ record { message_count = n + length msgs; printed = before ++ numbered n msgs }
print_messages-numbered [] n before small =
    let same : n + 0 ≡ n = omega arith in rw (append-nil before, same) refl
print_messages-numbered (msg ∷ msgs) n before small =
    let one_more : (n + 1) % 2 ^ 64 ≡ n + 1 = omega (arith, small) in
    let line = numbered_line (n + 1) msg in
    let count : n + 1 + length msgs ≡ n + suc (length msgs) = omega arith in
    let printed : print_message msg (record { message_count = n; printed = before })
        ≡ record { message_count = n + 1; printed = before ++ line ∷ [] } =
      rw one_more refl in
    ap (print_messages msgs) printed
    ∙ print_messages-numbered msgs (n + 1) (before ++ line ∷ []) (omega (arith, small))
    ∙ rw (count, append_assoc before (line ∷ []) (numbered (n + 1) msgs)) refl

-- Fewer than 2 ^ 64 texts are printed with the numbers from 1 on, and their number comes last.
pub mixin_lines-numbered :
    (msgs : List Bytes)
    → length msgs < 2 ^ 64
    → mixin_lines msgs
      ≡ subscribing_line ∷ numbered 0 msgs
        ++ (codes "Total messages received: " ++ decimal (length msgs)) ∷ []
mixin_lines-numbered msgs small =
    let from_none : 0 + length msgs ≡ length msgs = omega arith in
    ap (λ (p : MessagePrinter). subscribing_line ∷ p.printed ++ stats_line p ∷ [])
      (print_messages-numbered msgs 0 [] (omega (arith, small)))
    ∙ rw from_none refl
