-- ===== src/Lib.antt =====
-- Capability tokens, their ledger, approvals and the audit log of Raucle: a model of raucle/capability.py,
-- raucle/approvals.py, raucle/audit.py and a part of raucle/transparency.py, with the parts of
-- raucle/_canon.py, raucle/registry.py and raucle/pq.py that they use.
--
-- The program. An issuer (`CapabilityIssuer`) mints a signed token that lets an agent call one tool with
-- constrained arguments, and attenuates a token into a narrower child that cites it. Before a tool runs,
-- a gate (`CapabilityGate`) decides the call: it authenticates the token, compares the call with the
-- token, compares the token with its policy proof, and walks the chain of parents to the root, testing
-- each link. The gate and the issuer share the constraint language: `_merge_narrowing` makes the
-- child's constraints, and the gate makes the same merge again to test a link. The
-- delegation ledger (`DelegationLedger`) keeps the minted tokens: it resolves parents for the gate, lists
-- what stands under a token, and covers new tokens by the containment holds in its file. A call that needs
-- a human decision waits in the approval manager (`ApprovalManager`), whose reference pays for one call.
-- What happened goes to the audit log: `HashChainSink` writes a chain of hashed records with signed
-- checkpoints, and `AuditVerifier` reads it. The head of the chain is anchored outside, and a statement
-- about it is checked against the file.
--
-- The files.
--   Prelude, Text, Dict, Result: Python's values (integers, `str` as a list of code points, `dict` in
--     insertion order, calls that may raise) and the lemmas that the parts share.
--   Json: JSON values, Python's `==` on scalars, `_flatten_scalars`, `_is_number`; Json.Canon is
--     `_reject_floats`, `reorder_keys_utf16` and `_canonical_json`; Json.Objects has the object
--     operations of the records, Json.Portable is `_canonical_json` of raucle/audit.py.
--   Platform: what the program calls and does not implement.
--   Constraints: the constraint object. Decode is the reading of the raw object, Normalise is
--     `_normalise_constraints` and its helpers, Merge is `_merge_narrowing`, Equal is Python's `==` on objects, Check is
--     `_check_constraints` with its guard for unknown kinds, FileUri is `_canonical_file_uri`; the other children are proofs.
--   Token: `Capability`, `body`, `_signed_material`, the identifier patterns and the scope test.
--   Delegation: Assert is `_assert_narrowing`, Narrow is `_narrow_agent_id`, `_narrow_acting_for`,
--     `_narrow_intent`, `_narrow_expiry` and `_attenuation_violation`; Link is proofs.
--   Issuer: `CapabilityIssuer.mint`, `_bind_proof_hashes` and `attenuate`; Issuance: proofs about them.
--   Gate: `GateDecision` and `CapabilityGate`. Defs is the state, `__init__` and `revoke`; Identity,
--     Binding and Chain are the stages of `check`; Authority: proofs about the decisions.
--   Wire: `Capability.to_dict` and `from_dict`, between the record and the JSON object; Lookup, Kinds,
--     Intents and Back are proofs that the object is read as it was written.
--   Ledger: `DelegationLedger`. Defs is its state and its loading, Holds is `_hold_check` and what it calls,
--     Register is `register` and the resolver, Subtree is `descendants` and `tokens_for_agent`; Reach,
--     Chains, InForce, Covered and InStep are proofs.
--   Approvals: `ApprovalRequest` and `ApprovalManager`; Edges and Runs are proofs about its calls.
--   Audit: Merkle is `_merkle_root`, Sink is `HashChainSink`, Report and Records and Verify are
--     `VerificationReport` and `AuditVerifier`; Rounds, Life, Resume, Signed, Agrees, Honest, Faults,
--     Linked, Reading and Tamper are proofs.
--   Transparency: Head is `compute_chain_head`, Anchor is `verify_transparency_anchor` of
--     raucle/transparency.py, with a proof about it; Written is proofs about the head of a written file.
--   Tests: runs of the model, and the theorems at concrete tokens.
--
-- How the code is modelled.
--   A function that raises returns a Result; the text of an error is replaced by its kind. A decision
--     carries a Reason with the data of its message.
--   The clock is an argument. `mint` and `attenuate` read it once; the source reads it twice in
--     `attenuate`, so a second that passes between the two readings is not modelled.
--   A float is NaN, an infinity or n / 2 ^ k. Call arguments are JSON values: no sets, bytes or objects
--     of other classes.
--   The constraints of a token are a record: one field for each of the seven kinds, absent or there, and
--     one for the members under other keys. The raw object is read in three ways: `decode_constraints`
--     for `mint` raises on an unknown kind; `read_constraints` for `from_dict` keeps it, and the
--     gate refuses it; `read_extra` for `attenuate` reads the extra object as the loops of
--     `_merge_narrowing` go through it, texts and objects that stand for a list included, and the merge
--     then drops unknown kinds. A member of a wrong type is an error of each reading. In the source it is
--     one later: of the normalisation, or, in a parsed token, of the gate's checkers; a merge in which the
--     parent's tighter bound or list makes such a member disappear raises only in the model. Where
--     the source would meet two errors in one object, the model may report the other.
--   An intent is a record too: statement, tools and constraints. `from_dict` reads the hashes and the second
--     signature as texts or nothing, and refuses other values, which the source keeps.
--   `json.dumps`, SHA-256, base64, NFC, URL parsing, Ed25519 and ML-DSA-65 are the fields of Platform;
--     what a property asks of them it names: the records Sound of Issuance.Accepted and Fits of
--     Audit.Signed, and DigestsShow and PrintsPrevious of Audit.
--   The `while` loop over the parents has fuel, and no decision where it runs out. Authority.Returns
--     shows how much is enough. The loop over repeated slashes in a file URI has the length of the text
--     as fuel: each round makes the text shorter.
--   An audit file is the list of its lines as the strict reader meets them: blank, malformed, an object,
--     other JSON, or JSON with duplicate keys; the last two raise, as in the source. What is written
--     with `json.dumps` is read back as the same object. A member of a record that should be a text and is
--     not is read as the empty text, and an index that is no natural number is resumed as -1. The time
--     stamps are arguments; a record signer with a second key is a signer with an optional second key. A
--     checkpoint interval is a natural number. The loop of `_merkle_root` has the number of leaves as
--     fuel, which Audit.Rounds shows to be enough.
--   A row of the ledger's file holds the JSON object of `to_dict`; a parent id in it that is no text
--     counts as none. A row is a delegation
--     with a token or a control row, and any other line raises. The file's modification time is a number
--     that a call is given. `_chain_ids` has two rounds more than the ledger has rows as fuel, which
--     Ledger.Chains shows to be enough. `descendants` has fuel, and no result where
--     it runs out; Ledger.Reach shows where it ends and where it does not. Where `register` raises, what it
--     has read again from the file is not kept.
--   The head of an audit file takes an event index that is an integer or a bool; where the source would
--     convert a float or digits with `int`, the model raises.
--   The approval manager's methods return the manager that they leave, since `_get` writes before it
--     raises; the random part of an id is an argument, and times are integers.
--   The gate's set of revoked ids is a list, and its resolver a function.
--
-- Not modelled: the reading and writing of tokens and keys, `NullSink` and
-- `sink_from_env` of the audit log, the HTTP client of raucle/transparency.py, and the other modules of
-- the package (provenance, provers, gateways and integrations).
pub mod Prelude
pub mod Text
pub mod Json
pub mod Platform
pub mod Dict
pub mod Constraints
pub mod Result
pub mod Token
pub mod Delegation
pub mod Issuer
pub mod Gate
pub mod Authority
pub mod Issuance
pub mod Approvals
pub mod Audit
pub mod Tests
pub mod Wire
pub mod Ledger
pub mod Transparency
