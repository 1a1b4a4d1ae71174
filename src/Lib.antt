-- ===== src/Lib.antt =====
-- The controller of GrowthBook instances for Kubernetes (k8sgrowthbook-controller): it reads
-- GrowthbookInstance, GrowthbookUser, GrowthbookOrganization, GrowthbookFeature and
-- GrowthbookClient resources and writes the documents of GrowthBook's MongoDB.
--
-- How the parts interact. `Reconcile` of internal/controllers/instance_controller.go gets an
-- instance, puts a finalizer on it, connects to MongoDB with the credentials of a secret, lists
-- users, organizations, and for each organization features and clients, registers them in the
-- catalog of the instance's status, and updates or deletes the document of each through
-- internal/growthbook, which works on the interfaces of internal/storage. At the end it patches the
-- status, or takes the finalizer off an instance that is being deleted. Changes of resources and
-- secrets wake instances through `requestsForChangeBySelector` and `requestsForChangeByField`.
--
-- Files.
--   Prelude: booleans, Go strings as lists of bytes, slices with nil, maps, integers.
--   Api: the kinds of api/v1beta1, with the getters `GetID` and `GetName`, and meta.go.
--   Documents: the structs of internal/growthbook that go to the database.
--   Effects: programs as trees of calls to the world. A call has a type of replies; a program ends
--     with a value, an error or a Go panic. Traces has rules for what every call and every end
--     satisfies, Monitors rules for the order of calls, Runs a run against a given world.
--   Storage: internal/storage/storage.go and internal/storage/mongodb/mongodb.go.
--   Growthbook: internal/growthbook/{user,organization,feature,sdkconnection}.go; Encoding stands
--     for what the code uses of encoding/hex, encoding/base64 and strings. Feature/Convert is
--     `FromV1beta1`, Feature/Merge `mergeRules` and the loops of `UpdateFeature`.
--   Controller: internal/controllers/instance_controller.go. Users, Organizations, Features and
--     Clients are `reconcileUsers` and so on, with the steps that the four write out alike in
--     Resources; Reconciler is `reconcile` and `Reconcile`; Provider is `MongoDBProvider`; Objects,
--     Secrets, Catalog, Tokens and Watches are the smaller methods and functions.
--   Safety, Updates, Merging, Keys, Watching: properties of the controller's calls, of the writes of
--     the four updates, of the merging of features, of keys and passwords, and of the watches.
--     Safety/Reports and Safety/Outcome are about the status that is reported.
--   Refinement: Shelf is an interface of a collection that keeps what it is told, FeatureShelf a
--     weaker one for features, and Upsert the steps that the updates of users, organizations and
--     connections share, with the rules of Landing. Users, Organizations, Features and Connections
--     are the updates against a shelf. Passwords is `SetPassword`, Provisioning and Retirement what
--     becomes of one user, and Cluster an interface of a cluster that takes patches.
--     Loops, Selecting, Registration and Handling are what the four handlers share, for any kind of
--     resources; Population, Membership, Rollout and Access are `reconcileUsers`,
--     `reconcileOrganizations`, `reconcileFeatures` and `reconcileClients`. World puts four shelves
--     and a cluster together, and Frames says what a handler leaves alone. Tenants and Rounds are
--     the loop over the organizations, Convergence and Connected `reconcile`, Conclusion and
--     Requests `Reconcile`. Steps has what it takes for a change of a map to add nothing when it is
--     repeated, and Stability applies that to what `reconcile` does with
--     users, organizations and connections. Stopping is about the first resource that
--     fails.
--   Start: main.go and `SetupWithManager`, as a program of steps of its own. Protocol is the state
--     machine that the start has to follow, Following and Serving what is proved against it.
--   Tests: runs at concrete inputs.
--
-- The world. The Kubernetes client, the MongoDB driver, BSON, the clock and the random source are
-- calls with any reply of their type. Pure library functions (`strconv.ParseFloat`, `scrypt.Key`,
-- `url.Parse`, `LabelSelectorAsSelector`, `SetStatusCondition`, those on finalizers) are the record
-- `Externals`, an argument of what uses them.
--
-- The start asks pflag, the environment and controller-runtime, whose replies are any of their
-- type; `leaderelection.GenerateID` and `helper.GetWatchSelector` are the record `StartExternals`.
--
-- Bounds. All loops are recursions on the list that they go through, so there is no fuel. Numbers
-- that the program only passes on (floats, durations, generations, revisions) are unbounded; the
-- saturation of `time.Sub` is not modelled. A Go map is an association list whose order is that of
-- the range. What BSON makes of a map is not tied to that order: FeatureShelf supposes of `marshal`
-- only that its bytes, which may differ between two calls, are decoded to a feature that has the
-- same setting for each environment, up to empty slices that the tag `omitempty` leaves out. So a
-- second `UpdateFeature` may write a new date where nothing changed, and nothing is claimed of it.
--
-- Not modelled: logging, the usage texts of the flags, the timeout of the context (it shows as
-- errors of calls), the generated deep copies, and the mock storage of the Go tests.
pub mod Prelude
pub mod Api
pub mod Documents
pub mod Effects
pub mod Storage
pub mod Growthbook
pub mod Controller
pub mod Safety
pub mod Merging
pub mod Keys
pub mod Updates
pub mod Watching
pub mod Refinement
pub mod Start
pub mod Tests
