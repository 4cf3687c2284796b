-- ===== src/Lib.antt =====
-- directory-rbac-operator: RBAC subjects kept in sync with the groups of an LDAP directory.
--
-- The operator reads custom resources (api/v1alpha1) that each name a group of a directory and a role,
-- resolves the members of the group (internal/ldapclient), and keeps a RoleBinding or
-- ClusterRoleBinding that grants the role to exactly these members (internal/controller, with
-- internal/rbacsync for the objects it wants and the comparison with those that are there).
--
-- Base passes on the library's names and adds text order, lists and tests on native numbers. Go holds what
-- the language brings: Go.Errors the error values with errors.Is, Go.Action a call as a function
-- from a world to a result and a world, with its laws, and Go.Sort the promise of package sort.
-- Kube holds the Kubernetes objects with the fields that the code reads, the API server's
-- client and the rest of controller-runtime as parameters, with what they promise as laws. Api holds the
-- custom resources, and Metrics the collectors of internal/metrics.
--
-- Rbacsync models internal/rbacsync: the desired objects, and in Rbacsync.Diff the comparison of
-- subjects, the preview, the hash and the count of the members. Ldapclient models internal/ldapclient:
-- Library has what it takes of go-ldap, Client every function of client.go, Unreported and Frame the
-- lemmas for the theorems in Closing, Secrecy, Absence and Names. Meter and Throttle count the
-- connections that a client asks for, and Searches its searches. Limiters is ratelimit.go and Fake is
-- fake/fake_grouper.go, with their theorems beside the definitions.
--
-- Controller models internal/controller. Controller.Common has what the reconcilers share,
-- Controller.Laws and Controller.Conditions what is asked of the runtime and what follows for the
-- conditions of a status, Controller.Stored a status that is written, Controller.Resolving how a
-- group fails to be resolved, and Controller.Wanted what a binding asks for, field by field.
-- Controller.Binding is rbacgroupbinding_controller.go: Status has markReady, markDegraded and
-- markGroupNotFound, Sync has reconcileRoleBinding, and Reconcile has Reconcile, cut into functions
-- at each branch on an error. The modules beside them, which are named for what they prove, hold
-- the theorems, and Tests runs them on the small cluster of Controller.Sample. There Access states
-- what a binding promises without the order of subjects, with Steps and Refines for the code that
-- implements it, Serving what is asked of an API server for Converges, ReadBack reads the result,
-- and Counts follows the metrics. Controller.ClusterBinding is
-- clusterrbacgroupbinding_controller.go, cut in the same way; Unscoped sees cluster-wide objects as
-- ones without a namespace, to carry theorems over, and Outcome, Failsafe and Success are about
-- what Reconcile stores and grants. Controller.Provider is ldapprovider_controller.go: Transport is
-- about validateTLSConfig, Outcome and Health about what Reconcile stores on each outcome of the
-- health check, and Finalizer and Release about the finalizer. Controller.Readiness is
-- readiness.go, and Readiness.Health puts it together with the health check. Controller.Factory is
-- grouperfactory.go: Settings says what a client that was built is configured with, Secrecy and
-- Sources put the factory together with Ldapclient and with Controller.Binding. Controller.Watches
-- is mappers.go and indexers.go, with the indexes in Indexes and what the mappers enqueue in Loop
-- and Reach, and Controller.Setup is SetupWithManager of the three reconcilers.
--
-- Operator is the part of main.go that puts the others together; Operator.Budget and Operator.Release
-- follow the rate limiters that they share, and Operator.Throttle the connections that these let
-- through. Operator.Startup is the rest of main: its flags, what it registers with the manager
-- (Registered) and how the watches that it registers react to a rotated secret (Rotation).
--
-- Webhook models internal/webhook: both validators, with the loop that they share in Check;
-- Conflict says by the fields what it is to map the same group to the same role, Unique follows the
-- bindings of a namespace through a sequence of admitted requests, and Setup has the validators as
-- they are registered.
--
-- State: a call of the reconciler gets the world, an abstract type, and returns the next one. The
-- client, the directory and the clock are functions on it, and nothing is assumed of it but the laws
-- that a theorem names, so that the cluster may change between any two calls where no law says
-- otherwise. A Go pair of a value and an error is a Result, of which callers read one part.
--
-- Bounds: a count is a natural number that the model clamps to an int32 where the code does. No
-- definition needs fuel: all loops run over lists.
--
-- Not modelled: log lines, contexts (a cancelled context shows as an error of the call that gets it,
-- and the deadline of the readiness check goes to the listing), the reading of the command line, and
-- generated deep copies. The manager with what it does when it is started, the certificates of
-- crypto/x509, the LDAP library, the rate limiters of golang.org/x/time and the caches of
-- controller-runtime are parameters, with what they promise as named laws.
pub mod Base
pub mod Go
pub mod Kube
pub mod Metrics
pub mod Api
pub mod Ldapclient
pub mod Rbacsync
pub mod Controller
pub mod Webhook
pub mod Operator
