-- ===== src/Hcore/Commands/Resolve.antt =====
-- Where `resolveRealOutboundTag` ends.
use inhive_core.Prelude.{
  ℕ, zero, suc, ◌≤◌, arith, String, Option, none, some, ◌≡◌, ◌≢◌, refl, same-ne,
}
use inhive_core.Hcore.Commands.{LiveOutbound, group_now, resolve_from, resolve_real_outbound_tag}

-- From a tag the choices of the groups lead in a number of steps to an outbound that is no group.
pub data Leads (lookup : String → Option LiveOutbound) : ℕ → String → String → Type 0 where
  real :
      {tag : String} (o : LiveOutbound)
      → lookup tag ≡ some o
      → group_now o.role ≡ none
      → Leads lookup 0 tag tag
  choice :
      {n : ℕ} {tag end : String} (o : LiveOutbound) (now : String)
      → lookup tag ≡ some o
      → group_now o.role ≡ some now
      → now ≢ ""
      → now ≢ tag
      → Leads lookup n now end
      → Leads lookup (suc n) tag end

resolve_from-Leads :
    (lookup : String → Option LiveOutbound) (n rounds : ℕ) (tag end : String)
    → n ≤ rounds
    → Leads lookup n tag end
    → resolve_from lookup rounds tag ≡ end
unfolding resolve_from
resolve_from-Leads lookup zero zero tag end h (real o e g) = refl
resolve_from-Leads lookup zero (suc rounds) tag end h (real o e g) = rw (e, resolve_from, g) refl
resolve_from-Leads lookup (suc n) zero tag end h (choice o now e g p q l) = absurd (omega arith)
resolve_from-Leads lookup (suc n) (suc rounds) tag end h (choice o now e g p q l) =
    rw (e, resolve_from, g, same-ne now "" p, same-ne now tag q)
      (resolve_from-Leads lookup n rounds now end (omega arith) l)

Leads-loaded :
    (lookup : String → Option LiveOutbound) (n : ℕ) (tag end : String)
    → Leads lookup n tag end
    → (o : LiveOutbound) × (lookup tag ≡ some o)
Leads-loaded lookup zero tag end (real o e g) = (o, e)
Leads-loaded lookup (suc n) tag end (choice o now e g p q l) = (o, e)

-- If the choices of the groups lead from a tag, in eight steps at most, to an outbound that is no group,
-- then its tag is the result.
pub resolve_real_outbound_tag-Leads :
    (lookup : String → Option LiveOutbound) (n : ℕ) (tag end : String)
    → n ≤ 8
    → Leads lookup n tag end
    → resolve_real_outbound_tag (some lookup) tag ≡ end
unfolding resolve_real_outbound_tag
resolve_real_outbound_tag-Leads lookup n tag end h l =
    let loaded = Leads-loaded lookup n tag end l in
    rw (loaded.1, resolve_real_outbound_tag) (resolve_from-Leads lookup n 8 tag end h l)
